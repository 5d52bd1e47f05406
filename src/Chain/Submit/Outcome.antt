-- ===== src/Chain/Submit/Outcome.antt =====
-- Every outcome of `submit_block`, with what was checked before it and what is written.
mod Endings
pub use Endings.*
use ondris.Prelude.{
  ℕ, ◌≤◌, ◌<◌, ◌≡◌, ◌≢◌, sym, ◌∙◌, ap, subst, inl, inr, none, some, List, true, false, not,
  bytes_eq, ltb, ltb→lt, ◌==◌, ==→eq, Bool-cases, Result, ok, err, Result-cases, Error, arith,
  bad_tx_root, bad_pow, bad_signature, wrong_height, wrong_difficulty, missing_chainwork,
  missing_tip_work, not_initialized,
}
use ondris.Primitives.{Hash256}
use ondris.Block.{Block, Transaction}
use ondris.Difficulty.{target_for_difficulty}
use ondris.Pow.{meets_target}
use ondris.State.{Externals, has_block, get_block, get_chainwork, store_block, set_chainwork, tip}
use ondris.Chain.{Chain, expected_difficulty_after, block_work, add_u64, add_u128}
use ondris.Chain.Reorg.{reconsider_tip}
use ondris.Chain.Reorg.Commit.{Reorganized, reconsider_tip_atomic}
use ondris.Chain.Submit.{
  SubmitOutcome, accepted, side_branch, already_known, orphan, compute_tx_root, all_signed, adopt,
  choose_tip, submit_child, submit_new,
}

module _ {Tree : Type 0} (x : Externals Tree) where
  -- Moves an outcome along the equation that computes the call.
  by_cases :
      (c : Chain Tree) (hash : Hash256) (b : Block) {p r : Result SubmitOutcome × Chain Tree}
      → p ≡ r
      → Outcome x c hash b r
      → Outcome x c hash b p
  by_cases c hash b e o = subst (Outcome x c hash b) (sym e) o

  adopt-Outcome :
      (c : Chain Tree) (hash : Hash256) (b : Block) (k : Checked x c hash b) (tip_hash : Hash256)
      (tip_work : ℕ)
      → TipIs x (with_block x c hash b (work_of x k)) tip_hash tip_work
      → tip_work < work_of x k
      → Outcome x c hash b (adopt x tip_hash hash b (with_block x c hash b (work_of x k)))
  unfolding adopt
  adopt-Outcome c hash b k tip_hash tip_work at less =
      let d = with_block x c hash b (work_of x k) in
      elim (reconsider_tip_atomic x tip_hash hash b.header.height d) [
        | inl (e, same) ↦
            let call : adopt x tip_hash hash b d ≡ (err e, d) = ground arith in
            by_cases c hash b call (failed k (not_reorganized tip_hash tip_work at less same))
        | inr (out, c', done, reorganized) ↦
            let call : adopt x tip_hash hash b d ≡ (
              ok (accepted hash b.header.height (not (bytes_eq tip_hash b.header.prev_hash)) out),
              c',
            ) =
              ground arith in
            by_cases c hash b call (adopted k tip_hash tip_work at less out c' reorganized)
      ]

  choose_tip-Outcome :
      (c : Chain Tree) (hash : Hash256) (b : Block) (k : Checked x c hash b)
      → Outcome x c hash b (choose_tip x hash b (work_of x k) (with_block x c hash b (work_of x k)))
  unfolding choose_tip
  choose_tip-Outcome c hash b k =
      let d = with_block x c hash b (work_of x k) in
      let this_work = work_of x k in
      elim (Result-cases (tip x d.state)) [
        | inr (e, q) ↦ by_cases c hash b (ground arith) (failed k (unread_tip q))
        | inl (none, q) ↦ by_cases c hash b (ground arith) (failed k (no_tip q))
        | inl (some (height, tip_hash), q) ↦
            elim (Result-cases (get_chainwork x d.state tip_hash)) [
              | inr (e, q') ↦
                  by_cases c hash b (ground arith) (failed k (unread_tip_work height tip_hash q q'))
              | inl (none, q') ↦
                  by_cases c hash b (ground arith) (failed k (no_tip_work height tip_hash q q'))
              | inl (some tip_work, q') ↦
                  let at : TipIs x d tip_hash tip_work = record {
                    height = height;
                    is_tip = q;
                    work = q';
                  } in
                  elim (Bool-cases (ltb tip_work this_work)) [
                    | inl less ↦ by_cases c hash b (ground arith) (
                        adopt-Outcome c hash b k tip_hash tip_work at
                          (ltb→lt tip_work this_work less))
                    | inr more ↦
                        by_cases c hash b (ground arith)
                          (beaten k tip_hash tip_work at (ground arith))
                  ]
            ]
      ]

  differs : {m n : ℕ} → (m == n) ≡ false → m ≢ n
  differs {m} {n} off same = ground (arith, off, same)

  module _ (c : Chain Tree) (hash : Hash256) (b : Block) where
    submit_child-Outcome :
        (parent : Block)
        → Sound x c hash b
        → get_block x c.state b.header.prev_hash ≡ ok (some parent)
        → Outcome x c hash b (submit_child x hash b parent c)
    unfolding submit_child
    submit_child-Outcome parent sound stored =
        let expected_of = expected_difficulty_after x c.genesis c.state parent in
        let work_at = get_chainwork x c.state b.header.prev_hash in
        elim (Bool-cases (add_u64 parent.header.height 1 == b.header.height)) [
          | inr off ↦
              by_cases c hash b (rw off) (refused (other_height parent sound stored (differs off)))
          | inl follows ↦
              let stands : StandsOn x c b parent = (stored, ==→eq _ _ follows) in
              elim (Result-cases expected_of) [
                | inr (e, q) ↦
                    by_cases c hash b (rw follows (ground arith))
                      (refused (no_difficulty parent sound stands q))
                | inl (expected, q) ↦ elim (Bool-cases (b.header.difficulty == expected)) [
                  | inr wrong ↦
                      by_cases c hash b (rw follows (ground arith))
                        (refused (other_difficulty parent expected sound stands q (differs wrong)))
                  | inl right ↦
                      let given = q ∙ ap ok (sym (==→eq b.header.difficulty expected right)) in
                      elim (Result-cases work_at) [
                        | inr (e, q') ↦
                            by_cases c hash b (rw follows (ground arith))
                              (refused (unread_work parent sound stands given q'))
                        | inl (none, q') ↦
                            by_cases c hash b (rw follows (ground arith))
                              (refused (no_parent_work parent sound stands given q'))
                        | inl (some parent_work, q') ↦
                            let k : Checked x c hash b = record {
                              fresh = sound.0;
                              root = sound.1;
                              work_done = sound.2;
                              signed = sound.3;
                              parent = parent;
                              parent_stored = stored;
                              follows = stands.1;
                              difficulty = given;
                              parent_work = parent_work;
                              parent_work_stored = q';
                            } in
                            by_cases c hash b (rw follows (ground arith))
                              (choose_tip-Outcome c hash b k)
                      ]
                ]
              ]
        ]

    pub submit_new-Outcome :
        has_block x c.state hash ≡ false → Outcome x c hash b (submit_new x hash b c)
    unfolding submit_new
    submit_new-Outcome fresh = elim (Bool-cases (bytes_eq b.header.tx_root (compute_tx_root x b))) [
      | inr off ↦ by_cases c hash b (rw off) (refused (other_root off))
      | inl root ↦
          elim (Bool-cases (meets_target hash (target_for_difficulty b.header.difficulty))) [
            | inr short ↦ by_cases c hash b (rw root (rw short)) (refused (too_easy root short))
            | inl pow ↦ elim (Bool-cases (all_signed x b.transactions)) [
              | inr unsigned ↦
                  by_cases c hash b (rw root (rw pow (rw unsigned)))
                    (refused (forged root pow unsigned))
              | inl signed ↦ elim (Result-cases (get_block x c.state b.header.prev_hash)) [
                | inr (e, q) ↦
                    by_cases c hash b (rw root (rw pow (rw signed (ground arith))))
                      (refused (unread_parent (fresh, root, pow, signed) q))
                | inl (none, q) ↦
                    by_cases c hash b (rw root (rw pow (rw signed (ground arith))))
                      (orphaned (fresh, root, pow, signed) q)
                | inl (some parent, q) ↦
                    by_cases c hash b (rw root (rw pow (rw signed (ground arith))))
                      (submit_child-Outcome parent (fresh, root, pow, signed) q)
              ]
            ]
          ]
    ]
