-- ===== src/JoyTeleop/Mapping/Validity.antt =====
-- JoyTeleopNode: the values that the mapping can hold.
use Prim.Native.String.{String}
use text.Mathlib.Text.{◌==◌ as str_eq}
use physicar_ros.Base.{
  zero, ◌≡◌, inl, inr, refl, true, false, not, Option, none, some, List, [], ◌∷◌, if-intro, if-case,
}
use physicar_ros.Base.Int.{negsuc, ltb_ℤ}
use physicar_ros.Double.{Double}
use physicar_ros.StringMap.{insert, lookup}
use physicar_ros.JoyTeleop.State.{
  Val, int, float, bool, Teleop, is_int_key, is_float_key, is_bool_key, is_known_key,
}
use physicar_ros.JoyTeleop.Mapping.{
  load_mapping_from_file, load_object, load_valid, units_of, string_at, FileContent, no_file,
  unreadable, parsed, Host, Mapping, Result, bind, coerce, validate_file, read_bulk, commit,
  SetRequest, read_updates, apply_updates, set_updates, srv_set, save_mapping_to_file,
  restart_timer, Written, written, not_opened, thrown, saved, single_value, bulk_of, SetResponse,
}

-- What a result holds, when it holds one.
abbrev Holds {ℓ} : {A : Type ℓ} → (A → Type 0) → Result A → Type 0
Holds P (inl e) = Unit
Holds P (inr a) = P a

bind-Holds {ℓ κ} :
    {A : Type ℓ} {B : Type κ} (P : B → Type 0) (r : Result A) (f : A → Result B)
    → ((a : A) → Holds P (f a))
    → Holds P (bind r f)
bind-Holds P (inl e) f h = tt
bind-Holds P (inr a) f h = h a

bind-Holds_by {ℓ κ} :
    {A : Type ℓ} {B : Type κ} (Q : A → Type 0) (P : B → Type 0) (r : Result A) (f : A → Result B)
    → Holds Q r
    → ((a : A) → Q a → Holds P (f a))
    → Holds P (bind r f)
bind-Holds_by Q P (inl e) f q h = tt
bind-Holds_by Q P (inr a) f q h = h a q

module _ {F : Type 0} ⦃d : Double F⦄ where
  open d use {literal, lt}

  -- An integer of at least -1, a number that is not below zero, or a truth value, as the key says.
  abbrev pub IsValidEntry : String × Val F → Type 0
  IsValidEntry (k, int i) = (is_int_key k ≡ true) × (ltb_ℤ i (negsuc zero) ≡ false)
  IsValidEntry (k, float f) = (is_float_key k ≡ true) × (lt f (literal 0 0) ≡ false)
  IsValidEntry (k, bool b) = is_bool_key k ≡ true

  abbrev pub IsValid : Mapping F → Type 0
  IsValid [] = Unit
  IsValid ((k, v) ∷ m) = IsValidEntry (k, v) × IsValid m

  insert-IsValid :
      (k : String) (v : Val F) (m : Mapping F)
      → IsValidEntry (k, v)
      → IsValid m
      → IsValid (insert k v m)
  unfolding insert
  insert-IsValid k v [] p h = (p, tt)
  insert-IsValid k v ((j, w) ∷ m) p (q, h) =
      if-intro IsValid (str_eq j k) ((k, v) ∷ m) ((j, w) ∷ insert k v m) (p, h)
        (q, insert-IsValid k v m p h)

  commit-IsValid : (us m : Mapping F) → IsValid us → IsValid m → IsValid (commit us m)
  unfolding commit
  commit-IsValid [] m p h = h
  commit-IsValid ((k, v) ∷ us) m (p, ps) h =
      commit-IsValid us (insert k v m) ps (insert-IsValid k v m p h)

  saved_mapping : (s : Teleop F) (w : Written) → (saved s w).0.mapping ≡ s.mapping
  saved_mapping s written = refl
  saved_mapping s not_opened = refl
  saved_mapping s (thrown e) = refl

  apply_updates-IsValid :
      (us : Mapping F) (s : Teleop F)
      → IsValid us
      → IsValid s.mapping
      → IsValid (apply_updates us s).mapping
  unfolding apply_updates restart_timer
  apply_updates-IsValid us s p q =
      if-intro (λ t. IsValid (Teleop.mapping t)) _ (restart_timer _) _
        (commit-IsValid us s.mapping p q) (commit-IsValid us s.mapping p q)

  load_valid-IsValid :
      (s : Teleop F) (r : Result (Mapping F))
      → Holds IsValid r
      → IsValid s.mapping
      → IsValid (load_valid s r).mapping
  load_valid-IsValid s (inl e) h p = p
  load_valid-IsValid s (inr m) h p = commit-IsValid m s.mapping h p

module _ {J F : Type 0} ⦃d : Double F⦄ where
  open d use {literal, lt}

  coerce-IsValid :
      (h : Host J F) (k : String) (j : J) → Holds (λ v. IsValidEntry (k, v)) (coerce h k j)
  unfolding coerce
  coerce-IsValid h k j =
      if-case (Holds (λ v. IsValidEntry (k, v))) (is_int_key k) _ _
        (λ is_int.
          bind-Holds (λ v. IsValidEntry (k, v)) (h.get_int j) _
            (λ i.
              if-case (Holds (λ v. IsValidEntry (k, v))) (ltb_ℤ i (negsuc zero)) _ _ (λ e. tt)
                (λ e. (is_int, e))))
        (λ e.
          if-case (Holds (λ v. IsValidEntry (k, v))) (is_float_key k) _ _
            (λ is_float.
              bind-Holds (λ v. IsValidEntry (k, v)) (h.get_float j) _
                (λ f.
                  if-case (Holds (λ v. IsValidEntry (k, v))) (lt f (literal 0 0)) _ _ (λ e. tt)
                    (λ e. (is_float, e))))
            (λ e.
              if-case (Holds (λ v. IsValidEntry (k, v))) (is_bool_key k) _ _
                (λ is_bool. bind-Holds (λ v. IsValidEntry (k, v)) (h.get_bool j) _ (λ b. is_bool))
                (λ e. tt)))

  read_bulk-IsValid :
      (h : Host J F) (js : List (String × J)) (m : Mapping F)
      → IsValid m
      → Holds IsValid (read_bulk h js m)
  unfolding read_bulk
  read_bulk-IsValid h [] m p = p
  read_bulk-IsValid h ((k, j) ∷ js) m p =
      if-intro (Holds IsValid) (is_known_key k) _ (inl _)
        (bind-Holds_by (λ v. IsValidEntry (k, v)) IsValid (coerce h k j) _ (coerce-IsValid h k j)
          (λ v q. read_bulk-IsValid h js (insert k v m) (insert-IsValid k v m q p)))
        tt

  validate_file-IsValid :
      (h : Host J F) (js : List (String × J)) (m : Mapping F)
      → IsValid m
      → Holds IsValid (validate_file h js m)
  unfolding validate_file
  validate_file-IsValid h [] m p = p
  validate_file-IsValid h ((k, j) ∷ js) m p =
      if-intro (Holds IsValid) (is_known_key k) _ _
        (bind-Holds_by (λ v. IsValidEntry (k, v)) IsValid (coerce h k j) _ (coerce-IsValid h k j)
          (λ v q. validate_file-IsValid h js (insert k v m) (insert-IsValid k v m q p)))
        (validate_file-IsValid h js m p)

  bulk_of-IsValid : (h : Host J F) (o : Option (List (String × J))) → Holds IsValid (bulk_of h o)
  bulk_of-IsValid h none = tt
  bulk_of-IsValid h (some js) = read_bulk-IsValid h js [] tt

  read_updates-IsValid : (h : Host J F) (req : SetRequest F) → Holds IsValid (read_updates h req)
  unfolding read_updates
  read_updates-IsValid h req =
      if-intro (Holds IsValid) (not (str_eq req.mapping_json ""))
        (bind (h.parse req.mapping_json) (λ j. bulk_of h (h.items j))) _
        (bind-Holds IsValid (h.parse req.mapping_json) _ (λ j. bulk_of-IsValid h (h.items j)))
        (if-intro (Holds (IsValid {F = F})) (not (str_eq req.key "")) _ (inl _)
          (if-intro (Holds (IsValid {F = F})) (is_known_key req.key) _ (inl _)
            (bind-Holds_by (λ v. IsValidEntry (req.key, v)) IsValid
              (coerce h req.key (single_value h req)) _ (coerce-IsValid h req.key _)
              (λ v q. (q, tt)))
            tt)
          tt)

  set_updates-IsValid :
      (h : Host J F) (req : SetRequest F) (s : Teleop F) (r : Result (Mapping F))
      → Holds IsValid r
      → IsValid s.mapping
      → IsValid (set_updates h req s r).0.mapping
  unfolding set_updates save_mapping_to_file
  set_updates-IsValid h req s (inl e) p q = q
  set_updates-IsValid h req s (inr us) p q =
      if-intro {A = Teleop F × SetResponse} (λ t. IsValid (Teleop.mapping t.0)) req.save_to_file _ _
        (rw (saved_mapping (apply_updates us s)) (apply_updates-IsValid us s p q))
        (apply_updates-IsValid us s p q)

  -- After the service, whatever the request and whether it succeeds, the mapping holds valid values
  -- only, if it did before.
  pub srv_set-IsValid :
      (h : Host J F) (req : SetRequest F) (s : Teleop F)
      → IsValid s.mapping
      → IsValid (srv_set h req s).0.mapping
  unfolding srv_set
  srv_set-IsValid h req s p =
      set_updates-IsValid h req s (read_updates h req) (read_updates-IsValid h req) p

  load_object-IsValid :
      (h : Host J F) (s : Teleop F) (o : Option (List (String × J)))
      → IsValid s.mapping
      → IsValid (load_object h s o).mapping
  load_object-IsValid h s none p = p
  load_object-IsValid h s (some js) p =
      load_valid-IsValid (record s { mapping_units = units_of (string_at h (lookup "units" js)) })
        (validate_file h js []) (validate_file-IsValid h js [] tt) p

  -- Whatever the mapping's file holds, valid or not, the mapping holds valid values only after it is
  -- read, if it did before.
  pub load_mapping_from_file-IsValid :
      (h : Host J F) (content : FileContent J) (s : Teleop F)
      → IsValid s.mapping
      → IsValid (load_mapping_from_file h content s).mapping
  unfolding load_mapping_from_file
  load_mapping_from_file-IsValid h no_file s p = p
  load_mapping_from_file-IsValid h unreadable s p = p
  load_mapping_from_file-IsValid h (parsed j) s p = load_object-IsValid h s (h.items j) p
