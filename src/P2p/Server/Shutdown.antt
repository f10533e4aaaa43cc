-- ===== src/P2p/Server/Shutdown.antt =====
-- A shutdown that never ends.
use suffren.Base.{
  ℕ, ◌≤◌, ◌==◌, ◌≡◌, refl, sym, subst, ◌∙◌, true, false, Bool-cases, inl, inr, arith, write,
  false≢true,
}
use suffren.P2p.Server.{
  msg_chan_size, Handler, receiving, sending, returned, Serving, Step, receives, sends, returns,
  takes, stops_reading, closes, Steps, start, then_step,
}

-- The node reads no more, the channel is full, and the goroutine `i` waits to send.
pub record IsStuck (i : ℕ) (s : Serving) : Type 0 where
  pub unread : s.reading ≡ false
  pub full : msg_chan_size ≤ s.queued
  pub waiting : s.handlers i ≡ sending

not_both : (x : Handler) → x ≡ receiving → x ≡ sending → ⊥
not_both x p q = cc

eq_of_test : (a b : ℕ) → (a == b) ≡ true → a ≡ b
eq_of_test a b h = ground arith

-- A step of a goroutine in `Receive` is one of another goroutine.
kept :
    (i j : ℕ) (s : Serving) (x : Handler)
    → s.handlers j ≡ receiving
    → s.handlers i ≡ sending
    → write s.handlers j x i ≡ sending
unfolding write
kept i j s x e w = elim (Bool-cases (j == i)) [
  | inl t ↦
      absurd
        (not_both (s.handlers i) (subst (λ k. s.handlers k ≡ receiving) (eq_of_test j i t) e) w)
  | inr t ↦ rw (t) w
]

Step-IsStuck : (i : ℕ) (s s' : Serving) → Step s s' → IsStuck i s → IsStuck i s'
Step-IsStuck i s s' (receives j e d) h = record {
  unread = h.unread;
  full = h.full;
  waiting = kept i j s sending e h.waiting;
}
Step-IsStuck i s s' (sends j e room) h = absurd (omega (arith, room, h.full))
Step-IsStuck i s s' (returns j e) h = record {
  unread = h.unread;
  full = h.full;
  waiting = kept i j s returned e h.waiting;
}
Step-IsStuck i s s' (takes n reading e) h = absurd (false≢true (sym h.unread ∙ reading))
Step-IsStuck i s s' stops_reading h = record { unread = refl; full = h.full; waiting = h.waiting }
Step-IsStuck i s s' closes h = record { unread = h.unread; full = h.full; waiting = h.waiting }

-- Once the node has stopped reading while the channel is full and a goroutine waits to send, that
-- goroutine waits for ever, whatever happens: the channel stays full and nothing reads it.
pub steps-IsStuck : (i : ℕ) (s s' : Serving) → IsStuck i s → Steps s s' → IsStuck i s'
steps-IsStuck i s s' h start = h
steps-IsStuck i s s'' h (then_step {s' = s'} steps step) =
    Step-IsStuck i s' s'' step (steps-IsStuck i s s' h steps)
