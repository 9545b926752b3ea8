-- ===== src/S3storage/Objects.antt =====
-- Which error of a read says that an object is missing, and what a key that S3 cannot address does.
use image_forge.Prelude.{
  ◌≡◌, refl, sym, ap, ◌∙◌, subst, ◌↔◌, ◌⊎◌, inl, inr, Bool, true, false, ◌||◌, Option, none, some,
  arith, Text, codes, text_eq_iff, text_eq, Bool-cases,
}
use image_forge.Errors.{invalid_key, not_exist, Error, is, Result, ok, err}
use image_forge.Ports.{Bytes}
use image_forge.S3storage.{
  Client, Bucket, validate_key, not_found_code, is_not_found, put_valid, put, fetched, get_valid,
  get,
}

validate_key-invalid :
    (key : Text) (e : Error) → validate_key key ≡ some e → is e invalid_key ≡ true
unfolding validate_key is
validate_key-invalid key e h = ground arith

validate_key-not_exist :
    (key : Text) (e : Error) → validate_key key ≡ some e → is e not_exist ≡ false
unfolding validate_key is
validate_key-not_exist key e h = ground arith

module _ {W : Type 0} (client : Client W) (b : Bucket) where
  -- The ways in which S3 says that there is no such object: the two types of the SDK, and the codes
  -- of an API error.
  abbrev pub IsMissing : Error → Type 0
  IsMissing e =
      (client.is_no_such_key e ≡ true)
      ⊎ (client.is_no_such_bucket e ≡ true)
      ⊎ (client.api_code e ≡ some (codes "NoSuchKey"))
      ⊎ (client.api_code e ≡ some (codes "NoSuchBucket"))
      ⊎ (client.api_code e ≡ some (codes "NotFound"))

  -- A code that is none of the three.
  code-other :
      (code : Text)
      → not_found_code (some code) ≡ true
      → (code ≡ codes "NoSuchKey") ⊎ (code ≡ codes "NoSuchBucket") ⊎ (code ≡ codes "NotFound")
  unfolding not_found_code
  code-other code h = ground (
    arith,
    h,
    text_eq_iff (codes "NoSuchKey") code,
    text_eq_iff (codes "NotFound") code,
    text_eq_iff (codes "NoSuchBucket") code,
    text_eq_iff code (codes "NoSuchKey"),
    text_eq_iff code (codes "NotFound"),
    text_eq_iff code (codes "NoSuchBucket"),
  )

  code-IsMissing :
      (e : Error) (o : Option Text) → client.api_code e ≡ o → not_found_code o ≡ true → IsMissing e
  unfolding not_found_code
  code-IsMissing e none q h = absurd (ground arith)
  code-IsMissing e (some code) q h = elim (code-other code h) [
    | inl a ↦ inr (inr (inl (q ∙ ap some a)))
    | inr (inl a) ↦ inr (inr (inr (inl (q ∙ ap some a))))
    | inr (inr a) ↦ inr (inr (inr (inr (q ∙ ap some a))))
  ]

  or_true : (a b : Bool) → (a || b || true) ≡ true
  or_true a b = ground arith

  is_not_found-IsMissing : (e : Error) → is_not_found client e ≡ true ↔ IsMissing e
  unfolding is_not_found not_found_code text_eq
  is_not_found-IsMissing e = (
    λ h. elim (Bool-cases (client.is_no_such_key e)) [
      | inl a ↦ inl a
      | inr a ↦ elim (Bool-cases (client.is_no_such_bucket e)) [
        | inl b ↦ inr (inl b)
        | inr b ↦ code-IsMissing e _ refl (rw (a, b) at h)
      ]
    ],
    λ m. elim m [
      | inl a ↦ rw a refl
      | inr (inl a) ↦ ground (arith, a)
      | inr (inr (inl a)) ↦ rw a (or_true (client.is_no_such_key e) (client.is_no_such_bucket e))
      | inr (inr (inr (inl a))) ↦
          rw a (or_true (client.is_no_such_key e) (client.is_no_such_bucket e))
      | inr (inr (inr (inr a))) ↦
          rw a (or_true (client.is_no_such_key e) (client.is_no_such_bucket e))
    ],
  )

  -- An answer of the client's to a read is missing or not, and is not the standard library's error.
  fetched-err :
      (key : Text) (r : W × Result Bytes) (e : Error)
      → ((c : Error) → r.1 ≡ err c → is c not_exist ≡ false)
      → (fetched client key r).1 ≡ err e
      → (c : Error) × (r.1 ≡ err c) × (is e not_exist ≡ is_not_found client c)
  unfolding fetched is
  fetched-err key (w, ok content) e h q = absurd (ground arith)
  fetched-err key (w, err c) e h q = (c, refl, ground (arith, h c refl))

  -- What an error of a read comes from: the key, or the client.
  get_cases :
      (v : Option Error) (key : Text) (w : W) (e : Error)
      → (get_valid client b v key w).1 ≡ err e
      → ((c : Error) → (client.get_object b.name key w).1 ≡ err c → is c not_exist ≡ false)
      → (v ≡ some e)
        ⊎ ((v ≡ none)
            × (c : Error) × ((client.get_object b.name key w).1 ≡ err c)
            × (is e not_exist ≡ is_not_found client c))
  unfolding get_valid
  get_cases (some e') key w e h q = inl (ground arith)
  get_cases none key w e h q =
      let (c, a, s) = fetched-err key (client.get_object b.name key w) e q h in inr (refl, c, a, s)

  -- An error of `Get` is fs.ErrNotExist exactly when the key is valid and the client's answer says
  -- that there is no such object, as NoSuchKey or NoSuchBucket or with one of the three codes, where
  -- the client's own errors are never fs.ErrNotExist.
  pub get-not_exist :
      (key : Text) (w : W) (e : Error)
      → ((c : Error) → (client.get_object b.name key w).1 ≡ err c → is c not_exist ≡ false)
      → (get client b key w).1 ≡ err e
      → (is e not_exist ≡ true) ↔ (
          (validate_key key ≡ none)
          × (c : Error) × ((client.get_object b.name key w).1 ≡ err c)
          × IsMissing c)
  unfolding get
  get-not_exist key w e q h = elim (get_cases (validate_key key) key w e h q) [
    | inl v ↦ (
      (λ t. absurd (ground (arith, validate_key-not_exist key e v))),
      (λ p. absurd (ground arith)),
    )
    | inr (v, c, a, s) ↦ (
      (λ t. (v, c, a, (is_not_found-IsMissing c).0 (sym s ∙ t))),
      (λ p.
          let same : c ≡ p.1 = ground arith in
          s ∙ (is_not_found-IsMissing c).1 (subst IsMissing (sym same) p.3)),
    )
  ]

  -- A key that S3 cannot address reaches no client: `Put` and `Get` leave the world alone and
  -- return an error that is ErrInvalidKey.
  pub invalid-refused :
      (key : Text) (content : Option Bytes) (w : W) (e : Error)
      → validate_key key ≡ some e
      → (put client b key content w ≡ (w, some e))
        × (get client b key w ≡ (w, err e))
        × (is e invalid_key ≡ true)
  unfolding put get put_valid get_valid
  invalid-refused key content w e h = (rw h, rw h, validate_key-invalid key e h)
