-- ===== src/Security/Keys/Granted.antt =====
-- Who is let in.
use jobflow_project.Common.{
  Bool, Bool-cases, List, Option, Text, [], any, arith, drop, err_is_not_ok, find, inl, inr, keys,
  none, not, ok, refl, some, starts_with, take, text, text_eq, text_eq_iff, true, ◌&&◌, ◌∷◌, ◌≡◌,
}
use jobflow_project.Security.Keys.{ApiKeyRecord, is_revoked, find_by_prefix, admit, authenticate}

find-any :
    {A : Type 0} (p q : A → Bool) (xs : List A) (x : A)
    → find p xs ≡ some x
    → q x ≡ true
    → any (λ y. p y && q y) xs ≡ true
find-any p q [] x h k = cc
find-any p q (y ∷ ys) x h k = elim (Bool-cases (p y)) [
  | inl e ↦ ground arith
  | inr e ↦ ground (arith, find-any p q ys x)
]

module _ (hash_key trim : Text → Text) where
  -- A key fits what was sent if it is in force, its hash is the hash of that, and it is the tenant's.
  abbrev pub fits : (raw tenant_id : Text) → ApiKeyRecord → Bool
  fits raw tenant_id k = text_eq k.hash (hash_key raw) && text_eq k.tenant_id tenant_id

  admit-any :
      (raw prefix : Text) (keys : List ApiKeyRecord) (o : Option ApiKeyRecord) (tenant_id : Text)
      (scopes : List Text)
      → find_by_prefix prefix keys ≡ o
      → admit hash_key trim raw o ≡ ok (tenant_id, scopes)
      → any (λ k. (text_eq k.prefix prefix && not (is_revoked k)) && fits raw tenant_id k) keys
        ≡ true
  unfolding admit find_by_prefix
  admit-any raw prefix keys none t ss f h = cc
  admit-any raw prefix keys (some k) t ss f h =
      find-any (λ k. text_eq k.prefix prefix && not (is_revoked k)) (fits raw t) keys k f
        (ground (arith, text_eq_iff k.tenant_id t))

  -- A caller is let in as a tenant only if a stored key of that tenant is in force, begins with the
  -- first eight characters of what was sent behind `Bearer `, and has its hash.
  pub authenticate-any :
      (header : Text) (keys : List ApiKeyRecord) (tenant_id : Text) (scopes : List Text)
      → authenticate hash_key trim (some header) keys ≡ ok (tenant_id, scopes)
      → let raw = trim (drop 7 header) in
        (starts_with (text "Bearer ") header ≡ true)
        × (any
              (λ k. (text_eq k.prefix (take 8 raw) && not (is_revoked k)) && fits raw tenant_id k)
              keys
            ≡ true)
  unfolding authenticate
  authenticate-any header keys t ss h = elim (Bool-cases (starts_with (text "Bearer ") header)) [
    | inl e ↦
        let raw = trim (drop 7 header) in
        let prefix = take 8 raw in
        (e, admit-any raw prefix keys (find_by_prefix prefix keys) t ss refl (rw e at (h)))
    | inr e ↦ absurd (err_is_not_ok (rw e at (h)))
  ]
