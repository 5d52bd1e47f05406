-- ===== src/Gpu/Session/Buffers.antt =====
-- gpu.rs: what a batch is launched with and what it answers.
use ondris.Prelude.{
  ℕ, ◌≡◌, refl, sym, ap, ◌∙◌, subst, false, Bool-cases, inl, inr, ◌⊎◌, Option, none, some, Bytes,
  length, replicate, from_le_bytes, ◌==◌, if◌then◌else◌, arith,
}
use ondris.Gpu.Session.{Launch, Device, MiningSession, fits, read_results, launch_batch, try_batch}
use ondris.Gpu.Session.Uploads.{IsSession, upload-eq}

-- The launch that a batch stands for, over the result buffer as it was.
abbrev pub launch_of : Bytes → Bytes → ℕ → ℕ → Bytes → ℕ → Bytes → Launch
launch_of dataset header_bytes nonce_base accesses target batch_size result_nonce = record {
  dataset = dataset;
  dataset_len = length dataset;
  header = header_bytes;
  header_len = length header_bytes;
  nonce_base = nonce_base;
  accesses = accesses;
  target = target;
  batch_size = batch_size;
  result_nonce = result_nonce;
  result_found = replicate 4 0;
}

module _ (d : Device) where
  -- Why a batch has no result.
  pub data Refused (dataset header_bytes target : Bytes) (nonce_base accesses batch_size : ℕ)
      : Type 0 where
    too_long :
        fits header_bytes ≡ false
        → Refused dataset header_bytes target nonce_base accesses batch_size
    not_uploaded :
        (contents : Bytes)
        → d.accepts contents ≡ false
        → Refused dataset header_bytes target nonce_base accesses batch_size
    not_launched :
        (result_nonce : Bytes)
        → d.launch
            (launch_of dataset header_bytes nonce_base accesses target batch_size result_nonce)
          ≡ none
        → Refused dataset header_bytes target nonce_base accesses batch_size

  -- The result of a batch that was launched with exactly its own data.
  pub record Answered (dataset header_bytes target : Bytes) (nonce_base accesses batch_size : ℕ)
      (r : Option ℕ) : Type 0 where
    pub before : Bytes
    pub nonce_bytes : Bytes
    pub found_bytes : Bytes
    pub launched :
        d.launch (launch_of dataset header_bytes nonce_base accesses target batch_size before)
        ≡ some (nonce_bytes, found_bytes)
    pub read :
        r ≡ (if from_le_bytes found_bytes == 0 then none else some (from_le_bytes nonce_bytes))

  -- How a batch ends: refused, or answered, with the session it leaves.
  pub record Batch (dataset header_bytes target : Bytes) (nonce_base accesses batch_size : ℕ)
      (r : Option (Option ℕ) × MiningSession) : Type 0 where
    pub session : IsSession dataset r.1
    pub ending :
        ((r.0 ≡ none) × Refused dataset header_bytes target nonce_base accesses batch_size)
        ⊎ ((a : Option ℕ) × (r.0 ≡ some a)
            × Answered dataset header_bytes target nonce_base accesses batch_size a)

  module _ (dataset header_bytes target : Bytes) (nonce_base accesses batch_size : ℕ) where
    read_results-Batch :
        (s : MiningSession) (o : Option (Bytes × Bytes))
        → IsSession dataset s
        → d.launch
            (launch_of dataset header_bytes nonce_base accesses target batch_size s.result_nonce)
          ≡ o
        → Batch dataset header_bytes target nonce_base accesses batch_size (read_results d s o)
    unfolding read_results
    read_results-Batch s none is e = record {
      session = record {
        dataset_buf = is.dataset_buf;
        dataset_len = is.dataset_len;
        header = is.header;
        target = is.target;
      };
      ending = inl (refl, not_launched s.result_nonce e);
    }
    read_results-Batch s (some (nonce_bytes, found_bytes)) is e = record {
      session = record {
        dataset_buf = is.dataset_buf;
        dataset_len = is.dataset_len;
        header = is.header;
        target = is.target;
      };
      ending = inr (
        (if from_le_bytes found_bytes == 0 then none else some (from_le_bytes nonce_bytes)),
        refl,
        record {
          before = s.result_nonce;
          nonce_bytes = nonce_bytes;
          found_bytes = found_bytes;
          launched = e;
          read = refl;
        },
      );
    }

    launch_batch-Batch :
        (s : MiningSession)
        → IsSession dataset s
        → Batch dataset header_bytes target nonce_base accesses batch_size
            (launch_batch d s header_bytes header_bytes target nonce_base accesses batch_size)
    unfolding launch_batch
    launch_batch-Batch s is =
        subst (Batch dataset header_bytes target nonce_base accesses batch_size)
          (ap (λ args. read_results d s (d.launch args)) (sym same))
          (read_results-Batch s
            (d.launch
              (launch_of dataset header_bytes nonce_base accesses target batch_size s.result_nonce))
            is refl)
      where
        with_dataset : Bytes → ℕ → Launch
        with_dataset buf len =
            record (launch_of dataset header_bytes nonce_base accesses target batch_size
              s.result_nonce) { dataset = buf; dataset_len = len }

        same :
            with_dataset s.dataset_buf s.dataset_len
            ≡ launch_of dataset header_bytes nonce_base accesses target batch_size s.result_nonce
        same =
            ap (λ b. with_dataset b s.dataset_len) is.dataset_buf
            ∙ ap (with_dataset dataset) is.dataset_len

    -- On a session of this dataset a batch is launched with exactly this dataset, header and target,
    -- whatever an earlier batch has cached, and answers what that launch wrote; or it has no result,
    -- because the header is too long, a buffer is not accepted, or that launch fails. The session is
    -- one of this dataset afterwards.
    pub try_batch-Batch :
        (s : MiningSession)
        → IsSession dataset s
        → Batch dataset header_bytes target nonce_base accesses batch_size
            (try_batch d s header_bytes nonce_base accesses target batch_size)
    unfolding try_batch
    try_batch-Batch s is = elim (Bool-cases (fits header_bytes)) [
      | inr long ↦ refusal s is (too_long long) (ground (arith, long))
      | inl short ↦ elim (upload-eq d s.cached_header header_bytes is.header) [
        | inr (h, refused) ↦
            refusal s is (not_uploaded header_bytes refused) (ground (arith, short, h))
        | inl h ↦
            let s₁ : MiningSession = record s {
              cached_header = some (header_bytes, header_bytes);
            } in
            let is₁ : IsSession dataset s₁ = record {
              dataset_buf = is.dataset_buf;
              dataset_len = is.dataset_len;
              header = refl;
              target = is.target;
            } in
            elim (upload-eq d s.cached_target target is.target) [
              | inr (t, refused) ↦
                  refusal s₁ is₁ (not_uploaded target refused) (ground (arith, short, h, t))
              | inl t ↦
                  let s₂ : MiningSession = record s₁ { cached_target = some (target, target) } in
                  let call : batch s
                      ≡ launch_batch d s₂ header_bytes header_bytes target nonce_base accesses
                          batch_size =
                    ground (arith, short, h, t) in
                  subst (Batch dataset header_bytes target nonce_base accesses batch_size)
                    (sym call)
                    (launch_batch-Batch s₂ (record {
                      dataset_buf = is.dataset_buf;
                      dataset_len = is.dataset_len;
                      header = refl;
                      target = refl;
                    }))
            ]
      ]
    ]
      where
        batch : MiningSession → Option (Option ℕ) × MiningSession
        batch v = try_batch d v header_bytes nonce_base accesses target batch_size

        refusal :
            (v : MiningSession)
            → IsSession dataset v
            → Refused dataset header_bytes target nonce_base accesses batch_size
            → batch s ≡ (none, v)
            → Batch dataset header_bytes target nonce_base accesses batch_size (batch s)
        refusal v ok why e =
            subst (Batch dataset header_bytes target nonce_base accesses batch_size) (sym e)
              (record { session = ok; ending = inl (refl, why) })
