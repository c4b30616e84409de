-- ===== src/Latency/Collect/Sorted.antt =====
-- The samples are sorted, and are the same samples.
use net_lock.Common.{
  ℕ, zero, suc, ◌+◌, ◌<◌, ◌≤◌, ◌≡◌, ◌≢◌, ◌∙◌, refl, ap, true, false, arith, ◌==◌, ltb,
  if◌then◌else◌, write, write_self, write-ne, Bool-cases, inl, inr, ltb→lt, ==→eq, eq→==,
}
use net_lock.Latency.Collect.{shift, insert_at, sort}

abbrev pub one_if : ℕ → ℕ → ℕ
one_if x v = if v == x then 1 else 0

-- How often `x` stands among the first `n` entries.
abbrev pub count : (x n : ℕ) → (ℕ → ℕ) → ℕ
count x zero a = 0
count x (suc n) a = count x n a + one_if x (a n)

abbrev pub IsSorted : ℕ → (ℕ → ℕ) → Type 0
IsSorted n a = (p q : ℕ) → p < q → q < n → a p ≤ a q

pub count-above : (x n p v : ℕ) (a : ℕ → ℕ) → n ≤ p → count x n (write a p v) ≡ count x n a
count-above x zero p v a h = refl
count-above x (suc n) p v a h = omega (
  arith,
  count-above x n p v a (omega (arith, h)),
  ap (one_if x) (write-ne a p n v (λ e. omega (arith, e, h))),
)

count-write :
    (x n p v : ℕ) (a : ℕ → ℕ)
    → p < n
    → count x n (write a p v) + one_if x (a p) ≡ count x n a + one_if x v
count-write x zero p v a h = elim h [ ]
count-write x (suc n) p v a h = elim (Bool-cases (n == p)) [
  | inl last ↦
      let e = ==→eq n p last in
      omega (
        arith,
        count-above x n p v a (omega (arith, e)),
        ap (λ k. one_if x (write a p v k)) e,
        ap (λ k. one_if x (a k)) e,
        ap (one_if x) (write_self a p v),
      )
  | inr before ↦
      let ne : n ≢ p = λ e. cc (eq→== n p e) in
      omega
        (arith, count-write x n p v a (ground (arith, before)), ap (one_if x) (write-ne a p n v ne))
]

-- The entries without the one at `j` are sorted up to `i`, and those behind it are above `lat`.
record IsOpen (a : ℕ → ℕ) (j i lat : ℕ) : Type 0 where
  sorted : (p q : ℕ) → p < q → q < suc i → p ≢ j → q ≢ j → a p ≤ a q
  above : (q : ℕ) → j < q → q < suc i → lat < a q

closed :
    (a : ℕ → ℕ) (j i lat : ℕ)
    → IsOpen a j i lat
    → ((p : ℕ) → p < j → a p ≤ lat)
    → IsSorted (suc i) (write a j lat)
unfolding write
closed a j i lat o below p q lt end = ground (arith, o.sorted p q, o.above q, below p)

shifted-IsOpen :
    (a : ℕ → ℕ) (j i lat : ℕ)
    → j < i
    → lat < a j
    → IsOpen a (suc j) i lat
    → IsOpen (write a (suc j) (a j)) j i lat
unfolding write
shifted-IsOpen a j i lat lt gt o = record {
  sorted = λ p q lt end np nq. ground (arith, o.sorted p q, o.sorted p j, o.sorted j q);
  above = λ q lt end. ground (arith, o.above q);
}

shift-up :
    (j lat : ℕ) (a : ℕ → ℕ)
    → ltb lat (a j) ≡ true
    → shift (suc j) lat a ≡ shift j lat (write a (suc j) (a j))
unfolding shift
shift-up j lat a e = rw (e, shift) refl

shift-stop : (j lat : ℕ) (a : ℕ → ℕ) → ltb lat (a j) ≡ false → shift (suc j) lat a ≡ (a, suc j)
unfolding shift
shift-stop j lat a e = rw (e, shift) refl

-- What the search for the place of `lat` leaves, if the entry at `j` is then overwritten by it.
shift-IsSorted :
    (j i lat : ℕ) (a : ℕ → ℕ)
    → j ≤ i
    → IsOpen a j i lat
    → IsSorted (suc i) (write (shift j lat a).0 (shift j lat a).1 lat)
unfolding shift
shift-IsSorted zero i lat a le o = closed a 0 i lat o (λ p lt. absurd (omega (arith, lt)))
shift-IsSorted (suc j) i lat a le o = elim (Bool-cases (ltb lat (a j))) [
  | inl gt ↦ rw (shift-up j lat a gt) (
      shift-IsSorted j i lat (write a (suc j) (a j)) (omega (arith, le))
        (shifted-IsOpen a j i lat (omega (arith, le)) (ltb→lt lat (a j) gt) o))
  | inr found ↦
      rw (shift-stop j lat a found)
        (closed a (suc j) i lat o (λ p lt. ground (arith, o.sorted p j, found)))
]

shift-count :
    (x n j lat : ℕ) (a : ℕ → ℕ)
    → j < n
    → count x n (write (shift j lat a).0 (shift j lat a).1 lat) ≡ count x n (write a j lat)
unfolding shift
shift-count x n zero lat a lt = refl
shift-count x n (suc j) lat a lt = elim (Bool-cases (ltb lat (a j))) [
  | inl gt ↦ rw (shift-up j lat a gt) (
      omega (
        arith,
        shift-count x n j lat (write a (suc j) (a j)) (omega (arith, lt)),
        count-write x n j lat (write a (suc j) (a j)) (omega (arith, lt)),
        ap (one_if x) (write-ne a (suc j) j (a j) (λ e. omega (arith, e))),
        count-write x n (suc j) (a j) a lt,
        count-write x n (suc j) lat a lt,
      ))
  | inr found ↦ rw (shift-stop j lat a found) refl
]

insert_at-IsSorted : (i : ℕ) (a : ℕ → ℕ) → IsSorted i a → IsSorted (suc i) (insert_at i a)
unfolding insert_at
insert_at-IsSorted i a h = shift-IsSorted i i (a i) a (omega arith) (record {
  sorted = λ p q lt end np nq. h p q lt (omega (arith, end, nq));
  above = λ q lt end. absurd (omega (arith, lt, end));
})

insert_at-count : (x n i : ℕ) (a : ℕ → ℕ) → i < n → count x n (insert_at i a) ≡ count x n a
unfolding insert_at
insert_at-count x n i a lt =
    omega (arith, shift-count x n i (a i) a lt, count-write x n i (a i) a lt)

pub sort-IsSorted : (n : ℕ) (a : ℕ → ℕ) → IsSorted n (sort n a)
unfolding sort
sort-IsSorted zero a = λ p q lt end. absurd (omega (arith, end))
sort-IsSorted (suc n) a = insert_at-IsSorted n (sort n a) (sort-IsSorted n a)

pub sort-count : (x n k : ℕ) (a : ℕ → ℕ) → k ≤ n → count x n (sort k a) ≡ count x n a
unfolding sort
sort-count x n zero a le = refl
sort-count x n (suc k) a le =
    insert_at-count x n k (sort k a) (omega (arith, le)) ∙ sort-count x n k a (omega (arith, le))
