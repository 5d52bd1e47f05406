-- ===== src/Gpu/Session/Uploads.antt =====
-- gpu.rs: the start of a session, and the buffers that are cached.
use ondris.Prelude.{
  ◌≡◌, refl, sym, ap, ◌∙◌, subst, false, Bool-cases, Option-cases, inl, inr, ◌⊎◌, Option, none,
  some, Bytes, length, bytes_eq, bytes_eq_sound, arith,
}
use ondris.Gpu.Session.{Device, MiningSession, buffer_ro, mining_session, upload}

-- A buffer holds what it is cached for.
abbrev pub Holds : Option (Bytes × Bytes) → Type 0
Holds none = Unit {0}
Holds (some (held, buf)) = held ≡ buf

-- A session whose dataset on the device is the given one, with its cached buffers.
pub record IsSession (dataset : Bytes) (s : MiningSession) : Type 0 where
  pub dataset_buf : s.dataset_buf ≡ dataset
  pub dataset_len : s.dataset_len ≡ length dataset
  pub header : Holds s.cached_header
  pub target : Holds s.cached_target

-- A session that was made is one for the dataset.
abbrev Made : Bytes → Option MiningSession → Type 0
Made dataset none = Unit {0}
Made dataset (some s) = IsSession dataset s

module _ (d : Device) where
  buffer_ro-eq :
      (contents : Bytes)
      → (buffer_ro d contents ≡ some contents)
        ⊎ ((buffer_ro d contents ≡ none) × (d.accepts contents ≡ false))
  unfolding buffer_ro
  buffer_ro-eq contents = elim (Bool-cases (d.accepts contents)) [
    | inl accepted ↦ inl (ground (arith, accepted))
    | inr refused ↦ inr (ground (arith, refused), refused)
  ]

  mining_session-Made : (dataset : Bytes) → Made dataset (mining_session d dataset)
  unfolding mining_session
  mining_session-Made dataset = elim (buffer_ro-eq dataset) [
    | inr (e, refused) ↦ nothing (ground (arith, e))
    | inl e ↦ elim (Option-cases (d.fresh 8)) [
      | inl f ↦ nothing (ground (arith, e, f))
      | inr (n, f) ↦ elim (Option-cases (d.fresh 4)) [
        | inl g ↦ nothing (ground (arith, e, f, g))
        | inr (r, g) ↦
            let made : MiningSession = record {
              dataset_buf = dataset;
              dataset_len = length dataset;
              result_nonce = n;
              result_found = r;
              cached_header = none;
              cached_target = none;
            } in
            let call : mining_session d dataset ≡ some made = ground (arith, e, f, g) in
            subst (Made dataset) (sym call)
              (record { dataset_buf = refl; dataset_len = refl; header = tt; target = tt })
      ]
    ]
  ]
    where
      nothing : mining_session d dataset ≡ none → Made dataset (mining_session d dataset)
      nothing e = subst (Made dataset) (sym e) tt

  -- A session starts with the dataset it is given.
  pub mining_session-IsSession :
      (dataset : Bytes) (s : MiningSession)
      → mining_session d dataset ≡ some s
      → IsSession dataset s
  mining_session-IsSession dataset s e = subst (Made dataset) e (mining_session-Made dataset)

  -- What is cached afterwards is the data asked for, in a buffer that holds it.
  pub upload-eq :
      (cache : Option (Bytes × Bytes)) (contents : Bytes)
      → Holds cache
      → (upload d cache contents ≡ some (contents, contents))
        ⊎ ((upload d cache contents ≡ none) × (d.accepts contents ≡ false))
  unfolding upload
  upload-eq none contents h = elim (buffer_ro-eq contents) [
    | inl e ↦ inl (ground (arith, e))
    | inr (e, refused) ↦ inr (ground (arith, e), refused)
  ]
  upload-eq (some (held, buf)) contents h = elim (Bool-cases (bytes_eq held contents)) [
    | inl same ↦
        let is : held ≡ contents = bytes_eq_sound held contents same in
        let call : upload d (some (held, buf)) contents ≡ some (held, buf) = ground (arith, same) in
        inl (call ∙ ap (λ v. some (v, buf)) is ∙ ap (λ v. some (contents, v)) (sym h ∙ is))
    | inr other ↦ elim (buffer_ro-eq contents) [
      | inl e ↦ inl (ground (arith, other, e))
      | inr (e, refused) ↦ inr (ground (arith, other, e), refused)
    ]
  ]
