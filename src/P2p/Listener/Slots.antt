-- ===== src/P2p/Listener/Slots.antt =====
-- Lists of connections and the tables over them, for the proofs on internal/p2p/server.go.
use suffren.Base.{
  ℕ, ◌<◌, ◌≡◌, ◌≢◌, refl, subst, false, Bool, ◌==◌, Bool-cases, ◌⊎◌, inl, inr, write, arith, List,
  [], ◌∷◌, ◌++◌, All,
}
use suffren.P2p.Listener.{delete, Stage, registered}

abbrev pub Among : ℕ → List ℕ → Type 0
Among i [] = ⊥
Among i (j ∷ js) = (j ≡ i) ⊎ Among i js

pub delete-All : (P : ℕ → Type 0) (i : ℕ) (js : List ℕ) → All P js → All P (delete i js)
unfolding delete
delete-All P i [] h = tt
delete-All P i (j ∷ js) h = elim (Bool-cases (j == i)) [
  | inl t ↦ rw (t) (delete-All P i js h.1)
  | inr t ↦ rw (t) ((h.0, delete-All P i js h.1))
]

pub other_kept :
    {A : Type 0} (f : ℕ → A) (a : ℕ) (v x : A) (i : ℕ) → i < a → f i ≡ x → write f a v i ≡ x
unfolding write
other_kept f a v x i lt e = ground (arith, lt, e)

-- After `delete`, the entries that are left have the stage they had.
pub delete-registered :
    (f : ℕ → Stage) (i : ℕ) (v : Stage) (js : List ℕ)
    → All (λ j. f j ≡ registered) js
    → All (λ j. write f i v j ≡ registered) (delete i js)
unfolding delete write
delete-registered f i v [] h = tt
delete-registered f i v (j ∷ js) h = elim (Bool-cases (j == i)) [
  | inl t ↦ rw (t) (delete-registered f i v js h.1)
  | inr t ↦ rw (t) ((ground (arith, h, t), delete-registered f i v js h.1))
]

pub All-both : (P Q : ℕ → Type 0) (xs : List ℕ) → All P xs → All Q xs → All (λ i. P i × Q i) xs
All-both P Q [] p q = tt
All-both P Q (x ∷ xs) p q = ((p.0, q.0), All-both P Q xs p.1 q.1)

each_in_from :
    (P : ℕ → Type 0) (ids xs : List ℕ)
    → ((i : ℕ) → Among i xs → Among i ids)
    → All (λ i. P i ⊎ Among i ids) xs
each_in_from P ids [] sub = tt
each_in_from P ids (x ∷ xs) sub =
    (inr (sub x (inl refl)), each_in_from P ids xs (λ i a. sub i (inr a)))

pub each_in : (P : ℕ → Type 0) (xs ids : List ℕ) → xs ≡ ids → All (λ i. P i ⊎ Among i ids) xs
each_in P xs ids e = each_in_from P ids xs (λ i a. subst (Among i) e a)

Among-middle :
    (before : List ℕ) (i : ℕ) (after : List ℕ) (j : ℕ)
    → Among j (before ++ i ∷ after)
    → (i ≡ j) ⊎ Among j (before ++ after)
Among-middle [] i after j a = a
Among-middle (x ∷ before) i after j (inl e) = inr (inl e)
Among-middle (x ∷ before) i after j (inr a) = elim (Among-middle before i after j a) [
  | inl e ↦ inl e
  | inr b ↦ inr (inr b)
]

pub close_one :
    (is_open : ℕ → Bool) (before : List ℕ) (i : ℕ) (after ids : List ℕ)
    → before ++ after ≡ ids
    → (j : ℕ) → (is_open j ≡ false) ⊎ Among j (before ++ i ∷ after)
    → (write is_open i false j ≡ false) ⊎ Among j ids
unfolding write
close_one is_open before i after ids e j (inl c) = inl (ground (arith, c))
close_one is_open before i after ids e j (inr a) = elim (Among-middle before i after j a) [
  | inl same ↦ inl (ground (arith, same))
  | inr b ↦ inr (subst (Among j) e b)
]

pub still_closed :
    (is_open : ℕ → Bool) (i j : ℕ) → is_open j ≡ false → write is_open i false j ≡ false
unfolding write
still_closed is_open i j e = ground (arith, e)

pub now_set : {A : Type 0} (f : ℕ → A) (i : ℕ) (v : A) (j : ℕ) → f j ≡ v → write f i v j ≡ v
unfolding write
now_set f i v j e = ground (arith, e)

-- An entry that has the value `x` after a write of another value had it before.
pub was : {A : Type 0} (f : ℕ → A) (i : ℕ) (v x : A) (j : ℕ) → v ≢ x → write f i v j ≡ x → f j ≡ x
unfolding write
was f i v x j ne e = ground (arith, ne, e)
