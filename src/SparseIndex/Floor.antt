-- ===== src/SparseIndex/Floor.antt =====
-- What `Seek` finds in an index that `Build` made.
use amethyst.Base.{
  ℕ, zero, suc, ◌+◌, ◌*◌, ◌-◌, ◌^◌, ◌≤◌, ◌<◌, ◌≡◌, ◌≢◌, refl, ◌⊎◌, inl, inr, Bool, true, false,
  List, [], ◌∷◌, Key, ◌==◌, if◌then◌else◌, length, get_or, arith, ap, key_ltb,
}
use native.Mathlib.Nat.{zero-add}
use amethyst.Search.{search}
use amethyst.Search.Boundary.{IsBoundary, search-IsBoundary, search_calls-le}
use amethyst.SparseIndex.{Builder, sample, build, seek}
use amethyst.SparseIndex.Sample.{get_or-sample, length-sample, sample_reach}

-- the samples of the two arrays, from the first position on
abbrev sampled_keys : ℕ → List Key → List Key
sampled_keys stride ks = sample (length ks) stride ks [] 0

abbrev sampled_offsets : ℕ → List Key → List ℕ → List ℕ
sampled_offsets stride ks offs = sample (length ks) stride offs 0 0

-- `o` is the offset at a sampled position whose key is not above the target, while the next sampled
-- key, if there is one, is.
pub record IsFloor (stride : ℕ) (ks : List Key) (offs : List ℕ) (target : Key) (o p : ℕ)
    : Type 0 where
  pub bound : p * stride < length ks
  pub offset : o ≡ get_or offs (p * stride) 0
  pub key_le : key_ltb target (get_or ks (p * stride) []) ≡ false
  pub next_gt : suc p * stride < length ks → key_ltb target (get_or ks (suc p * stride) []) ≡ true

module _ (stride : ℕ) (ks : List Key) (offs : List ℕ) (target : Key) (pos : 0 < stride)
    (same : length ks ≡ length offs) where
  after : ℕ → Bool
  after i = key_ltb target (get_or (sampled_keys stride ks) i [])

  key_at :
      (p : ℕ)
      → p < length (sampled_keys stride ks)
      → (get_or (sampled_keys stride ks) p [] ≡ get_or ks (p * stride) [])
        × (p * stride < length ks)
  key_at p fit = rw zero-add at (get_or-sample (length ks) stride ks [] 0 p fit)

  offset_at :
      (p : ℕ)
      → p < length (sampled_keys stride ks)
      → get_or (sampled_offsets stride ks offs) p 0 ≡ get_or offs (p * stride) 0
  offset_at p fit =
      let fit' : p < length (sampled_offsets stride ks offs) =
        rw (length-sample (length ks) stride ks [] offs 0 0 same) at fit in
      (rw zero-add at (get_or-sample (length ks) stride offs 0 0 p fit')).0

  next_after :
      (p : ℕ)
      → (p ≡ length (sampled_keys stride ks)) ⊎ (after p ≡ true)
      → p * stride < length ks
      → key_ltb target (get_or ks (p * stride) []) ≡ true
  unfolding after
  next_after p high h =
      let fit : p < length (sampled_keys stride ks) =
        sample_reach (length ks) stride ks [] 0 p pos (omega arith) (omega arith) in
      ground (arith, high, (key_at p fit).0, ap (key_ltb target) (key_at p fit).0)

  IsFloor-at :
      (r : ℕ)
      → IsBoundary after (length (sampled_keys stride ks)) (suc r)
      → IsFloor stride ks offs target (get_or (sampled_offsets stride ks offs) r 0) r
  unfolding after
  IsFloor-at r b =
      let fit : r < length (sampled_keys stride ks) = omega (arith, b.bound) in
      let back : suc r - 1 ≡ r = omega arith in
      let low : key_ltb target (get_or (sampled_keys stride ks) r []) ≡ false =
        ground (arith, b.low, back, ap after back) in
      record {
        bound = (key_at r fit).1;
        offset = offset_at r fit;
        key_le = rw (← (key_at r fit).0) low;
        next_gt = next_after (suc r) b.high;
      }

-- the index of a segment that holds a key
build_nonempty :
    (b : Builder) (k : Key) (ks : List Key) (offs : List ℕ)
    → build b (k ∷ ks) offs ≡ record {
      keys = sampled_keys b.stride (k ∷ ks);
      offsets = sampled_offsets b.stride (k ∷ ks) offs;
    }
unfolding build
build_nonempty b k ks offs = ground arith

abbrev pub IsSeek : Builder → List Key → List ℕ → Key → ℕ → Type 0
IsSeek b ks offs target o =
    ((o ≡ 0) × (ks ≢ [] → key_ltb target (get_or ks 0 []) ≡ true))
    ⊎ ((p : ℕ) × IsFloor b.stride ks offs target o p)

module _ (b : Builder) (k : Key) (ks : List Key) (offs : List ℕ) (target : Key) (pos : 0 < b.stride)
    (same : length (k ∷ ks) ≡ length offs) where
  result_at : ℕ → ℕ
  result_at r = if r == 0 then 0 else get_or (sampled_offsets b.stride (k ∷ ks) offs) (r - 1) 0

  result_IsSeek :
      (r : ℕ)
      → IsBoundary
          (after b.stride (k ∷ ks) offs target pos same)
          (length (sampled_keys b.stride (k ∷ ks)))
          r
      → IsSeek b (k ∷ ks) offs target (result_at r)
  unfolding result_at
  result_IsSeek zero c =
      let start : 0 * b.stride ≡ 0 = omega arith in
      let first = next_after b.stride (k ∷ ks) offs target pos same 0 c.high (omega arith) in
      inl (refl, λ _. rw start at first)
  result_IsSeek (suc r) c =
      let back : suc r - 1 ≡ r = omega arith in
      let test : (suc r == 0) ≡ false = ground arith in
      rw (test, back) (inr (r, IsFloor-at b.stride (k ∷ ks) offs target pos same r c))

  search_keys : ℕ
  search_keys =
      search (length (sampled_keys b.stride (k ∷ ks)))
        (after b.stride (k ∷ ks) offs target pos same)

  some_keys : 0 < length (sampled_keys b.stride (k ∷ ks))
  some_keys =
      sample_reach (length (k ∷ ks)) b.stride (k ∷ ks) [] 0 0 pos (omega arith) (omega arith)

  seek-result : (seek (build b (k ∷ ks) offs) target).0 ≡ result_at search_keys
  unfolding seek search result_at search_keys after
  seek-result = rw build_nonempty (ground (arith, some_keys))

-- On the index of a segment's keys and offsets, Seek returns the offset at a sampled position p *
-- stride whose key is at most the target while the next sampled key is above it, or 0 when the
-- first key is above the target or there is no key. It needs no order on the keys; on ascending
-- keys p is the last sampled position whose key is at most the target.
pub seek-IsFloor :
    (b : Builder) (ks : List Key) (offs : List ℕ) (target : Key)
    → 0 < b.stride
    → length ks ≡ length offs
    → IsSeek b ks offs target (seek (build b ks offs) target).0
unfolding search_keys
seek-IsFloor b [] offs target pos same = inl (unfold seek build in refl, λ h. absurd (h refl))
seek-IsFloor b (k ∷ ks) offs target pos same =
    rw (seek-result b k ks offs target pos same)
      (result_IsSeek b k ks offs target pos same _ (search-IsBoundary _ _))

length-sampled_keys :
    (stride : ℕ) (ks : List Key) → length (sampled_keys stride ks) * stride < length ks + stride + 1
length-sampled_keys stride ks = go (length (sampled_keys stride ks)) refl
  where
    go : (m : ℕ) → length (sampled_keys stride ks) ≡ m → m * stride < length ks + stride + 1
    go zero e = omega arith
    go (suc m) e =
        let last = get_or-sample (length ks) stride ks [] 0 m (omega (arith, e)) in
        omega (arith, last.1)

below_of_mul : (m c s n : ℕ) → m * s < n + s + 1 → n + s < c * s → m < c
below_of_mul m c s n h k = grind arith

-- With a positive stride, Seek in the index of fewer than (2 ^ c - 1) * stride keys compares at most c
-- times.
pub seek_comparisons :
    (b : Builder) (ks : List Key) (offs : List ℕ) (target : Key) (c : ℕ)
    → 0 < b.stride
    → length ks + b.stride < 2 ^ c * b.stride
    → (seek (build b ks offs) target).1 ≤ c
unfolding seek
seek_comparisons b [] offs target c pos h = unfold build in omega arith
seek_comparisons b (k ∷ ks) offs target c pos h =
    let few : length (sampled_keys b.stride (k ∷ ks)) < 2 ^ c =
      below_of_mul _ (2 ^ c) b.stride _ (length-sampled_keys b.stride (k ∷ ks)) h in
    rw build_nonempty (
      ground (
        arith,
        search_calls-le (length (sampled_keys b.stride (k ∷ ks))) c
            (λ (i : ℕ). key_ltb target (get_or (sampled_keys b.stride (k ∷ ks)) i [])) few,
      ))
