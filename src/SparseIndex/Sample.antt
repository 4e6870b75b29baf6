-- ===== src/SparseIndex/Sample.antt =====
-- What `Build` puts into the index.
use amethyst.Base.{
  ℕ, zero, suc, ◌+◌, ◌*◌, ◌≤◌, ◌<◌, ◌≡◌, refl, inl, inr, List, ltb, length, get_or, arith,
  Bool-cases, ap,
}
use amethyst.SparseIndex.{sample}

-- Position `p` of the samples from `i` on is item `i + p * stride`.
pub get_or-sample {ℓ} :
    {A : Type ℓ} (fuel stride : ℕ) (items : List A) (default : A) (i p : ℕ)
    → p < length (sample fuel stride items default i)
    → (get_or (sample fuel stride items default i) p default
        ≡ get_or items (i + p * stride) default)
      × (i + p * stride < length items)
unfolding sample
get_or-sample zero stride items d i p h = absurd (omega arith)
get_or-sample (suc fuel) stride items d i zero h = elim (Bool-cases (ltb i (length items))) [
  | inl more ↦ rw more (ap (λ k. get_or items k d) (omega arith), ground arith)
  | inr done ↦ absurd (ground arith)
]
get_or-sample (suc fuel) stride items d i (suc p) h = elim (Bool-cases (ltb i (length items))) [
  | inl more ↦
      let at : i + suc p * stride ≡ i + stride + p * stride = omega arith in
      let fit : p < length (sample fuel stride items d (i + stride)) = ground arith in
      rw (more, at) (get_or-sample fuel stride items d (i + stride) p fit)
  | inr done ↦ absurd (ground arith)
]

-- Two arrays of one length are sampled at the same positions.
pub length-sample {ℓ κ} :
    {A : Type ℓ} {B : Type κ} (fuel stride : ℕ) (xs : List A) (a : A) (ys : List B) (b : B) (i : ℕ)
    → length xs ≡ length ys
    → length (sample fuel stride xs a i) ≡ length (sample fuel stride ys b i)
unfolding sample
length-sample zero stride xs a ys b i e = refl
length-sample (suc fuel) stride xs a ys b i e =
    rw e (ground (arith, length-sample fuel stride xs a ys b (i + stride) e))

-- With a positive stride the loop leaves no position out: `p` is sampled exactly when position
-- `p * stride` is there.
pub sample_reach {ℓ} :
    {A : Type ℓ} (fuel stride : ℕ) (items : List A) (a : A) (i p : ℕ)
    → 0 < stride
    → length items ≤ i + fuel
    → i + p * stride < length items
    → p < length (sample fuel stride items a i)
unfolding sample
sample_reach zero stride items a i p pos fit h = absurd (grind arith)
sample_reach (suc fuel) stride items a i zero pos fit h = ground arith
sample_reach (suc fuel) stride items a i (suc p) pos fit h =
    let more : i < length items = grind arith in
    let tail : i + stride + p * stride < length items = omega arith in
    ground (arith, sample_reach fuel stride items a (i + stride) p pos (omega arith) tail)
