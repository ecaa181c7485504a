-- ===== src/JoyTeleop/Mapping/Update.antt =====
-- JoyTeleopNode: the service that sets the mapping is all or nothing, but for the file.
use Prim.Native.String.{String, ◌++◌ as ◌<>◌}
use physicar_ros.Base.{◌≡◌, ◌≢◌, ◌⊎◌, inl, inr, refl, true, false, if-case, length}
use physicar_ros.Double.{Double}
use physicar_ros.JoyTeleop.State.{Teleop}
use physicar_ros.JoyTeleop.Mapping.{
  Host, Mapping, Result, SetRequest, SetResponse, Written, written, not_opened, thrown, saved,
  payload, read_updates, apply_updates, save_mapping_to_file, respond_saved, set_updates, srv_set,
}

module _ {J F : Type 0} ⦃d : Double F⦄ where
  -- Nothing is changed, or the request wanted a file that could not be written.
  abbrev pub IsRefused : Host J F → SetRequest F → Teleop F → Teleop F → Type 0
  IsRefused h req s t = (t ≡ s) ⊎ ((req.save_to_file ≡ true) × (h.write (payload h t) ≢ written))

  respond_saved_failure :
      (h : Host J F) (text : String) (s : Teleop F) (w : Written)
      → (respond_saved h text (saved s w)).1.success ≡ false
      → ((respond_saved h text (saved s w)).0 ≡ s) × (w ≢ written)
  respond_saved_failure h text s written e = absurd (cc)
  respond_saved_failure h text s not_opened e = (refl, λ q. absurd (cc))
  respond_saved_failure h text s (thrown t) e = (refl, λ q. absurd (cc))

  set_updates_failure :
      (h : Host J F) (req : SetRequest F) (s : Teleop F) (r : Result (Mapping F))
      → (set_updates h req s r).1.success ≡ false
      → IsRefused h req s (set_updates h req s r).0
  unfolding set_updates save_mapping_to_file
  set_updates_failure h req s (inl e) f = inl refl
  set_updates_failure h req s (inr us) f =
      if-case {A = Teleop F × SetResponse} (λ p. p.1.success ≡ false → IsRefused h req s p.0)
        req.save_to_file _ _
        (λ e g.
          let t = apply_updates us s in
          let text = "Updated " <> h.number (length us) <> " key(s)" in
          let (same, n) = respond_saved_failure h text t (h.write (payload h t)) g in
          inr (e, rw same n))
        (λ e g. absurd (cc)) f

  -- When the service answers that it failed, the node is as it was before, or the request wanted the
  -- mapping saved and the write of the file with the new mapping did not succeed.
  pub srv_set_failure :
      (h : Host J F) (req : SetRequest F) (s : Teleop F)
      → (srv_set h req s).1.success ≡ false
      → IsRefused h req s (srv_set h req s).0
  unfolding srv_set
  srv_set_failure h req s f = set_updates_failure h req s (read_updates h req) f
