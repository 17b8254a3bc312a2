-- ===== src/Fanout/Sent.antt =====
-- The loop by which a request is split over the base bdevs: the child requests that it sends, given one by one.
use flex_bso.Common.{
  ℕ, zero, suc, ◌<◌, ◌≡◌, ◌∙◌, refl, ap, Bool, true, false, if◌then◌else◌, List, [], ◌∷◌, arith,
}
use flex_bso.Bdev.{Child}
use flex_bso.Fanout.{Slot, missing, child}
use flex_bso.Fanout.Life.{sent_slot, sent_below}

-- The children `c k` of the numbers below `n` with `p k`, the newest first.
abbrev pub sent_where : (ℕ → Bool) → (ℕ → Child) → ℕ → List Child
sent_where p c zero = []
sent_where p c (suc k) = if p k then c k ∷ sent_where p c k else sent_where p c k

module _ (slot : ℕ → Slot) (p : ℕ → Bool) (c : ℕ → Child) where
  slot_sent :
      (t : Bool) (x : Child) (cs : List Child)
      → sent_slot slot (if t then child x else missing) cs ≡ (if t then x ∷ cs else cs)
  slot_sent true x cs = refl
  slot_sent false x cs = refl

  pub sent_below-where :
      (n : ℕ)
      → ((k : ℕ) → k < n → slot k ≡ (if p k then child (c k) else missing))
      → sent_below slot n ≡ sent_where p c n
  sent_below-where zero h = refl
  sent_below-where (suc n) h =
      ap (λ s. sent_slot slot s (sent_below slot n)) (h n (omega arith))
      ∙ slot_sent (p n) (c n) (sent_below slot n)
      ∙ ap (λ cs. if p n then c n ∷ cs else cs) (sent_below-where n (λ k q. h k (omega arith)))
