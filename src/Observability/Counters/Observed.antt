-- ===== src/Observability/Counters/Observed.antt =====
-- What the rendered histograms say of the durations that were observed.
use drills.Prelude.{
  ℕ, ◌+◌, ◌≤◌, ◌≡◌, refl, ap, ◌∙◌, fun_ext, Option, none, some, List, [], ◌∷◌, ◌++◌, map, length,
  leb, if◌then◌else◌, arith,
}
use drills.Observability.Counters.{
  pool_buckets, Histogram, new_histogram, fill, observe, Sample, bucket_samples, render_histogram,
}

unfoldable pub observe_all : List ℕ → Histogram → Histogram
unfolding observe
observe_all [] h = h
observe_all (t ∷ ts) h = observe_all ts (observe t h)

abbrev pub within : ℕ → Option ℕ → ℕ
within t none = 1
within t (some le) = if leb t le then 1 else 0

-- How many durations are at most a bound, where none is no bound, and their sum.
abbrev pub at_most : List ℕ → Option ℕ → ℕ
at_most [] le = 0
at_most (t ∷ ts) le = at_most ts le + within t le

abbrev pub sum_of : List ℕ → ℕ
sum_of [] = 0
sum_of (t ∷ ts) = sum_of ts + t

abbrev pub sample_for : List ℕ → Option ℕ → Sample
sample_for ts le = record { le = le; value = at_most ts le }

-- A histogram that holds `base`.
Holds : (ℕ → ℕ) → Histogram → ℕ → ℕ → Type 0
Holds base h sum count = (h.buckets ≡ map base pool_buckets) × (h.sum ≡ sum) × (h.count ≡ count)

fill-map :
    (t : ℕ) (bounds : List ℕ) (base : ℕ → ℕ)
    → fill t bounds (map base bounds) ≡ map (λ le. base le + within t (some le)) bounds
unfolding fill
fill-map t [] base = refl
fill-map t (le ∷ bounds) base = ground (arith, fill-map t bounds base)

observe-Holds :
    (t : ℕ) (h : Histogram) (base : ℕ → ℕ) (sum count : ℕ)
    → Holds base h sum count
    → Holds (λ le. base le + within t (some le)) (observe t h) (sum + t) (count + 1)
unfolding observe Holds
observe-Holds t h base sum count (b, s, c) =
    (ap (fill t pool_buckets) b ∙ fill-map t pool_buckets base, omega (arith, s), omega (arith, c))

map_same : (f g : ℕ → ℕ) (xs : List ℕ) → ((x : ℕ) → f x ≡ g x) → map f xs ≡ map g xs
map_same f g xs same = rw (fun_ext same) refl

observe_all-Holds :
    (ts : List ℕ) (h : Histogram) (base : ℕ → ℕ) (sum count : ℕ)
    → Holds base h sum count
    → Holds
        (λ le. base le + at_most ts (some le))
        (observe_all ts h)
        (sum + sum_of ts)
        (count + length ts)
unfolding observe_all Holds
observe_all-Holds [] h base sum count (b, s, c) = (
  b ∙ map_same base (λ le. base le + 0) pool_buckets (λ le. omega arith),
  omega (arith, s),
  omega (arith, c),
)
observe_all-Holds (t ∷ ts) h base sum count holds =
    let (b, s, c) =
      observe_all-Holds ts (observe t h) (λ le. base le + within t (some le)) (sum + t) (count + 1)
        (observe-Holds t h base sum count holds) in
    (
      b
          ∙ map_same (λ le. base le + within t (some le) + at_most ts (some le))
              (λ le. base le + at_most (t ∷ ts) (some le)) pool_buckets (λ le. omega arith),
      omega (arith, s),
      omega (arith, c),
    )

render_histogram-Holds :
    (f : ℕ → ℕ) (h : Histogram) (sum count : ℕ)
    → Holds f h sum count
    → render_histogram h ≡ (
      map (λ le. record { le = some le; value = f le }) pool_buckets
          ++ (record { le = none; value = count } ∷ []),
      sum,
      count,
    )
unfolding render_histogram Holds bucket_samples
render_histogram-Holds f h sum count (b, s, c) = rw (b, s, c) refl

at_most-le : (ts : List ℕ) (a b : ℕ) → a ≤ b → at_most ts (some a) ≤ at_most ts (some b)
at_most-le [] a b h = omega arith
at_most-le (t ∷ ts) a b h = ground (arith, at_most-le ts a b h)

at_most-le-length : (ts : List ℕ) (le : Option ℕ) → at_most ts le ≤ length ts
at_most-le-length [] le = omega arith
at_most-le-length (t ∷ ts) none = omega (arith, at_most-le-length ts none)
at_most-le-length (t ∷ ts) (some le) = ground (arith, at_most-le-length ts (some le))

at_most-none : (ts : List ℕ) → at_most ts none ≡ length ts
at_most-none [] = refl
at_most-none (t ∷ ts) = omega (arith, at_most-none ts)

-- The lines of a histogram of the pool: each says how many of the durations that were
-- observed are at most its bound, the last one how many there are, and after them stand their
-- sum and how many there are. The numbers do not fall from a bound to a larger one, nor to
-- the last.
pub render_histogram-observe_all :
    (ts : List ℕ)
    → (render_histogram (observe_all ts new_histogram) ≡ (
      map (λ le. sample_for ts (some le)) pool_buckets ++ (sample_for ts none ∷ []),
      sum_of ts,
      length ts,
    ))
      × ((a b : ℕ)
          → a ≤ b
          → (at_most ts (some a) ≤ at_most ts (some b)) × (at_most ts (some b) ≤ at_most ts none))
unfolding new_histogram Holds
render_histogram-observe_all ts =
    let (b, s, c) = observe_all-Holds ts new_histogram (λ _. 0) 0 0 (refl, refl, refl) in
    let f : ℕ → ℕ = λ le. at_most ts (some le) in
    let b' = b ∙ map_same (λ le. 0 + f le) f pool_buckets (λ le. omega arith) in
    (
      rw (at_most-none ts)
          (render_histogram-Holds f _ _ _ (b', omega (arith, s), omega (arith, c))),
      λ a b h. (at_most-le ts a b h, omega (arith, at_most-le-length ts (some b), at_most-none ts)),
    )
