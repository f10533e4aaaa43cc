-- ===== src/Cmd/Bench/Tallies.antt =====
-- The counts over the results of the requests.
use suffren.Base.{
  ℕ, suc, ◌+◌, ◌≡◌, sym, ◌∙◌, inl, inr, Option, none, some, Option-cases, String, List, [], ◌∷◌,
  ◌++◌, map, ite, Key, nat_key, string_key, arith,
}
use mathlib.Core.List.{append-nil, append_assoc}
use suffren.GoMap.{GoMap, lookup}
use suffren.GoMap.Laws.{lookup-put}
use suffren.Cmd.Bench.{Result, Tally, add_one, tally_one, tally, no_results}

-- What a counter shows of a key: 0 for a missing one.
abbrev or_zero : Option ℕ → ℕ
or_zero none = 0
or_zero (some n) = n

abbrev pub count_of : {K : Type 0} → ⦃key : Key K⦄ → K → GoMap K ℕ → ℕ
count_of k counts = or_zero (lookup k counts)

-- How many requests were answered with the code, and how many failed with the error.
unfoldable pub responses : ℕ → List Result → ℕ
responses code [] = 0
responses code (res ∷ results) =
    let rest = responses code results in
    elim res.err [ some err ↦ rest | none ↦ ite (nat_key.dec res.status_code code) (suc rest) rest ]

unfoldable pub failures : String → List Result → ℕ
failures text [] = 0
failures text (res ∷ results) =
    let rest = failures text results in
    elim res.err [ some err ↦ ite (string_key.dec err text) (suc rest) rest | none ↦ rest ]

module _ {K : Type 0} ⦃key : Key K⦄ where
  count_of-add_one :
      (k j : K) (counts : GoMap K ℕ)
      → count_of j (add_one k counts)
        ≡ ite (key.dec k j) (suc (count_of j counts)) (count_of j counts)
  unfolding add_one
  count_of-add_one k j counts = elim (Option-cases (lookup k counts)) [
    | inl e ↦ ground (arith, e, lookup-put k j 1 counts)
    | inr (n, e) ↦ ground (arith, e, lookup-put k j (n + 1) counts)
  ]

all_durations-tally_one :
    (t : Tally) (res : Result)
    → (tally_one t res).all_durations ≡ t.all_durations ++ res.duration ∷ []
unfolding tally_one
all_durations-tally_one t res = ground arith

tally-durations :
    (t : Tally) (results : List Result)
    → (tally t results).all_durations ≡ t.all_durations ++ map (λ res. res.duration) results
unfolding tally tally_one
tally-durations t [] = sym (append-nil t.all_durations)
tally-durations t (res ∷ results) =
    tally-durations (tally_one t res) results
    ∙ rw (all_durations-tally_one t res)
        (append_assoc t.all_durations (res.duration ∷ []) (map (λ r. r.duration) results))

tally_one-code :
    (t : Tally) (res : Result) (results : List Result) (code : ℕ)
    → count_of code (tally_one t res).status_counts + responses code results
      ≡ count_of code t.status_counts + responses code (res ∷ results)
unfolding tally_one responses
tally_one-code t res results code = elim (Option-cases res.err) [
  | inl e ↦ ground (arith, e, count_of-add_one res.status_code code t.status_counts)
  | inr (text, e) ↦ ground (arith, e)
]

tally_one-text :
    (t : Tally) (res : Result) (results : List Result) (text : String)
    → count_of text (tally_one t res).err_counts + failures text results
      ≡ count_of text t.err_counts + failures text (res ∷ results)
unfolding tally_one failures
tally_one-text t res results text = elim (Option-cases res.err) [
  | inl e ↦ ground (arith, e)
  | inr (err, e) ↦ ground (arith, e, count_of-add_one err text t.err_counts)
]

tally-code :
    (t : Tally) (results : List Result) (code : ℕ)
    → count_of code (tally t results).status_counts
      ≡ count_of code t.status_counts + responses code results
unfolding tally responses
tally-code t [] code = omega arith
tally-code t (res ∷ results) code =
    tally-code (tally_one t res) results code ∙ tally_one-code t res results code

tally-text :
    (t : Tally) (results : List Result) (text : String)
    → count_of text (tally t results).err_counts
      ≡ count_of text t.err_counts + failures text results
unfolding tally failures
tally-text t [] text = omega arith
tally-text t (res ∷ results) text =
    tally-text (tally_one t res) results text ∙ tally_one-text t res results text

-- Over any results the loop collects their durations in order, counts for each status code the
-- requests that were answered with it, and for each error those that failed with it.
pub tally-counts :
    (results : List Result) (code : ℕ) (text : String)
    → ((tally no_results results).all_durations ≡ map (λ res. res.duration) results)
      × (count_of code (tally no_results results).status_counts ≡ responses code results)
      × (count_of text (tally no_results results).err_counts ≡ failures text results)
unfolding lookup
tally-counts results code text = (
  tally-durations no_results results,
  ground (arith, tally-code no_results results code),
  ground (arith, tally-text no_results results text),
)
