-- ===== src/Localnames/Grow.antt =====
-- The array of original paths: growing it, and the names that it keeps.
use spindle.Prelude.{
  ℕ, zero, suc, ◌+◌, ◌^◌, ◌*◌, ◌/◌, ◌<◌, ◌≤◌, none, some, true, false, ◌==◌, ltb, CString, ◌≡◌, ◌≢◌,
  refl, arith, ap, ◌∙◌, Bool-cases, inl, inr,
}
use spindle.Localnames.{LocalNames, grow_global_name_list, grow_until, put_name, add_index}
use spindle.Localnames.Found.{IsNamed}

-- The array is at least as long as at first, and the mark is eight tenths of it.
pub record IsArray (s : LocalNames) : Type 0 where
  pub large : 10240 ≤ s.array_size
  pub marked : s.hiwat ≡ s.array_size * 8 / 10

-- Growing changes the sizes only.
pub record Grew (s t : LocalNames) : Type 0 where
  pub is_array : IsArray t
  pub longer : s.array_size ≤ t.array_size
  pub same_path : t.cachepath ≡ s.cachepath
  pub same_tmpdir : t.normalized_tmpdir ≡ s.normalized_tmpdir
  pub same_num : t.unique_str_num ≡ s.unique_str_num
  pub same_max : t.max_index ≡ s.max_index
  pub same_names : t.global_names ≡ s.global_names

pub grow_until-Grew :
    (fuel index : ℕ) (s : LocalNames) → IsArray s → Grew s (grow_until fuel index s)
unfolding grow_until grow_global_name_list
grow_until-Grew zero index s is = record {
  is_array = is;
  longer = omega arith;
  same_path = refl;
  same_tmpdir = refl;
  same_num = refl;
  same_max = refl;
  same_names = refl;
}
grow_until-Grew (suc fuel) index s is =
    let rest =
      grow_until-Grew fuel index (grow_global_name_list s)
        (record { large = omega (arith, is.large); marked = refl }) in
    elim (Bool-cases (ltb s.hiwat index)) [
      | inl e ↦ rw e (record {
        is_array = rest.is_array;
        longer = omega (arith, rest.longer);
        same_path = rest.same_path;
        same_tmpdir = rest.same_tmpdir;
        same_num = rest.same_num;
        same_max = rest.same_max;
        same_names = rest.same_names;
      })
      | inr e ↦ rw e (record {
        is_array = is;
        longer = omega arith;
        same_path = refl;
        same_tmpdir = refl;
        same_num = refl;
        same_max = refl;
        same_names = refl;
      })
    ]

-- With `fuel` rounds left the mark still doubles so often.
abbrev doubled : ℕ → ℕ → ℕ
doubled zero n = n
doubled (suc fuel) n = doubled fuel (n * 2)

grow_until_enough :
    (fuel index : ℕ) (s : LocalNames)
    → IsArray s
    → index ≤ doubled fuel s.array_size * 8 / 10
    → index ≤ (grow_until fuel index s).hiwat
unfolding grow_until grow_global_name_list
grow_until_enough zero index s is near = omega (arith, near, is.marked)
grow_until_enough (suc fuel) index s is near =
    let rest =
      grow_until_enough fuel index (grow_global_name_list s)
        (record { large = omega (arith, is.large); marked = refl }) near in
    elim (Bool-cases (ltb s.hiwat index)) [ inl e ↦ rw e rest | inr e ↦ rw e (ground arith) ]

-- Once the index is at most the mark, the loop has ended: further rounds change nothing.
grow_until_ended : (n index : ℕ) (s : LocalNames) → index ≤ s.hiwat → grow_until n index s ≡ s
unfolding grow_until
grow_until_ended zero index s near = refl
grow_until_ended (suc n) index s near =
    let ended : ltb s.hiwat index ≡ false = ground arith in rw ended refl

grow_until_more :
    (fuel more n index : ℕ) (s : LocalNames)
    → fuel + more ≡ n
    → index ≤ (grow_until fuel index s).hiwat
    → grow_until n index s ≡ grow_until fuel index s
unfolding grow_until grow_global_name_list
grow_until_more zero more n index s e near = grow_until_ended n index s near
grow_until_more (suc fuel) more zero index s e near = absurd (omega arith)
grow_until_more (suc fuel) more (suc n) index s e near = elim (Bool-cases (ltb s.hiwat index)) [
  | inl grows ↦
      rw grows (
        grow_until_more fuel more n index (grow_global_name_list s) (omega arith)
          (rw grows at near))
  | inr ends ↦ rw ends refl
]

grow_until_size :
    (fuel index : ℕ) (s : LocalNames)
    → (grow_until fuel index s).array_size ≤ doubled fuel s.array_size
unfolding grow_until grow_global_name_list
grow_until_size zero index s = omega arith
grow_until_size (suc fuel) index s =
    let rest = grow_until_size fuel index (grow_global_name_list s) in
    let stays = doubled_le fuel s.array_size in
    elim (Bool-cases (ltb s.hiwat index)) [
      | inl e ↦ rw e rest
      | inr e ↦ rw e (omega (arith, stays))
    ]
  where
    doubled_le : (k n : ℕ) → n ≤ doubled k (n * 2)
    doubled_le zero n = omega arith
    doubled_le (suc k) n = omega (arith, doubled_le k (n * 2))

-- For an array of less than 2^24 names and an index that is at most ten times its length, the loop
-- ends after at most four rounds, however many more it may take; then the index is at most the
-- mark and inside the array, whose length times 8, the largest number that growing computes, fits
-- an `int`.
pub grow_until_in_bounds :
    (more index : ℕ) (s : LocalNames)
    → IsArray s
    → index ≤ 10 * s.array_size
    → s.array_size < 2 ^ 24
    → (grow_until (4 + more) index s ≡ grow_until 4 index s)
      × (index ≤ (grow_until 4 index s).hiwat)
      × (index < (grow_until 4 index s).array_size)
      × ((grow_until 4 index s).array_size * 8 < 2 ^ 31)
grow_until_in_bounds more index s is near small =
    let enough = grow_until_enough 4 index s is (omega (arith, near, is.large)) in
    let grew = grow_until-Grew 4 index s is in
    (
      grow_until_more 4 more (4 + more) index s refl enough,
      enough,
      omega (arith, enough, grew.is_array.marked, grew.is_array.large),
      omega (arith, grow_until_size 4 index s, small),
    )

module _ (pathname : CString) (index : ℕ) (s : LocalNames) (is : IsArray s)
    (free : s.global_names index ≡ none) where
  -- The new name stands at its index, and the old ones where they stood.
  pub add_index_new : (add_index pathname (some index) s).global_names index ≡ some pathname
  unfolding add_index put_name
  add_index_new =
      let grew = grow_until-Grew 4 index s is in
      let empty : (grow_until 4 index s).global_names index ≡ none =
        ap (λ f. f index) grew.same_names ∙ free in
      let here : (index == index) ≡ true = ground arith in rw (here, empty) refl

  pub add_index_old :
      (i : ℕ) → i ≢ index → (add_index pathname (some index) s).global_names i ≡ s.global_names i
  unfolding add_index put_name
  add_index_old i other =
      let grew = grow_until-Grew 4 index s is in
      let apart : (i == index) ≡ false = ground arith in rw apart (ap (λ f. f i) grew.same_names)

  pub add_index_reached : index ≤ (add_index pathname (some index) s).max_index
  unfolding add_index put_name
  add_index_reached = ground arith

  add_index_max : s.max_index ≤ (add_index pathname (some index) s).max_index
  unfolding add_index put_name
  add_index_max = let grew = grow_until-Grew 4 index s is in ground (arith, grew.same_max)

  pub add_index-IsNamed :
      (localpath name : CString)
      → IsNamed s localpath name
      → IsNamed (add_index pathname (some index) s) localpath name
  unfolding add_index put_name
  add_index-IsNamed localpath name named =
      let grew = grow_until-Grew 4 index s is in
      let other : named.index ≢ index = λ same. cc (named.named, free, ap s.global_names same) in
      record {
        index = named.index;
        is_local = rw grew.same_path named.is_local;
        near = omega (arith, named.near, grew.longer);
        reached = omega (arith, named.reached, add_index_max);
        named = add_index_old named.index other ∙ named.named;
      }
