-- ===== src/Raid5f/Xor.antt =====
-- raid/raid5f.c: the XOR of a stripe's chunks, segment by segment, from `raid5f_xor_stripe` to its callback.
-- The metadata has a job of its own. What is XORed is left out: the accel framework does it.
use flex_bso.Common.{
  ℕ, suc, ◌-◌, Bool, true, false, if◌then◌else◌, ltb, ◌==◌, List, ◌∷◌, add64, sub64, shl64,
}
use flex_bso.Bdev.{Rc, ok, fail, enomem, BdevIo}
use flex_bso.RaidBdev.{RaidBdev}
use flex_bso.Raid5f.{StripeRequestType, stripe_req_write, stripe_req_reconstruct}

-- The field `xor` of `struct stripe_request`; the jobs of the accel framework that have not ended, whether the
-- request is on the retry queue, and the statuses that `xor.cb` was called with.
pub record XorState : Type 0 where
  pub len : ℕ
  pub remaining : ℕ
  pub remaining_md : ℕ
  pub status : Rc
  pub data_jobs : ℕ
  pub md_jobs : ℕ
  pub queued : Bool
  pub cb_calls : List Rc

-- The bytes of each chunk that are XORed.
unfoldable pub xor_bytes : RaidBdev → BdevIo → StripeRequestType → ℕ
xor_bytes r b stripe_req_write = shl64 r.strip_size r.blocklen_shift
xor_bytes r b stripe_req_reconstruct = shl64 b.num_blocks r.blocklen_shift

-- The callback is called; the retry of the next request on the queue is a step of that request.
unfoldable pub raid5f_xor_stripe_done : XorState → XorState
raid5f_xor_stripe_done x = record x { cb_calls = x.status ∷ x.cb_calls }

abbrev status_after : Rc → Rc → Rc
status_after ok old = old
status_after (fail e) old = fail e

-- `_raid5f_xor_stripe_cb`
unfoldable pub xor_stripe_cb_end : Rc → XorState → XorState
unfolding raid5f_xor_stripe_done
xor_stripe_cb_end job_status x =
    let y = record x { status = status_after job_status x.status } in
    if add64 x.remaining x.remaining_md == 0 then raid5f_xor_stripe_done y else y

-- `answer` is the answer of `spdk_accel_submit_xor`.
unfoldable pub raid5f_xor_stripe_continue : Rc → XorState → XorState
unfolding raid5f_xor_stripe_done
raid5f_xor_stripe_continue ok x = record x { data_jobs = suc x.data_jobs }
raid5f_xor_stripe_continue (fail enomem) x = record x { queued = true }
raid5f_xor_stripe_continue (fail e) x = raid5f_xor_stripe_done (record x { status = fail e })

-- The job of the metadata has ended.
unfoldable pub raid5f_xor_stripe_md_cb : Rc → XorState → XorState
unfolding xor_stripe_cb_end
raid5f_xor_stripe_md_cb job_status x =
    xor_stripe_cb_end job_status (record x { remaining_md = 0; md_jobs = x.md_jobs - 1 })

-- `segment n` is the length that `spdk_ioviter_nextv` (or `spdk_ioviter_firstv`) gives with `n` bytes to go.
module _ (segment : ℕ → ℕ) where
  -- The part of `raid5f_xor_stripe_cb` that goes on, if bytes are left.
  abbrev pub next_segment : Rc → XorState → XorState
  next_segment answer x =
      if ltb 0 x.remaining
      then raid5f_xor_stripe_continue answer (record x { len = segment x.remaining })
      else x

  -- The job of a segment has ended.
  unfoldable pub raid5f_xor_stripe_cb : Rc → Rc → XorState → XorState
  unfolding raid5f_xor_stripe_continue xor_stripe_cb_end
  raid5f_xor_stripe_cb answer job_status x = xor_stripe_cb_end job_status (
      next_segment answer
        (record x { remaining = sub64 x.remaining x.len; data_jobs = x.data_jobs - 1 }))

  -- The job of the metadata is submitted, and the first segment after it.
  abbrev pub md_submitted : Rc → Rc → XorState → XorState
  md_submitted ok answer x =
      raid5f_xor_stripe_continue answer (record x { md_jobs = suc x.md_jobs })
  md_submitted (fail enomem) answer x = record x { queued = true }
  md_submitted (fail e) answer x = raid5f_xor_stripe_done (record x { status = fail e })

  -- `total` bytes of each chunk; `has_md` says whether the request has a buffer for its metadata, of `md_len`
  -- bytes.
  unfoldable pub raid5f_xor_stripe : ℕ → Bool → ℕ → Rc → Rc → XorState → XorState
  unfolding raid5f_xor_stripe_continue raid5f_xor_stripe_done
  raid5f_xor_stripe total has_md md_len md_answer answer x =
      let started = record x { len = segment total; remaining = total; status = ok } in
      if has_md
      then md_submitted md_answer answer (record started { remaining_md = md_len })
      else raid5f_xor_stripe_continue answer started

  -- The request is taken off the retry queue.
  unfoldable pub raid5f_xor_stripe_retry : ℕ → Bool → ℕ → Rc → Rc → XorState → XorState
  unfolding raid5f_xor_stripe raid5f_xor_stripe_continue
  raid5f_xor_stripe_retry total has_md md_len md_answer answer x =
      let taken = record x { queued = false } in
      if ltb 0 x.remaining_md
      then raid5f_xor_stripe total has_md md_len md_answer answer taken
      else raid5f_xor_stripe_continue answer taken
