-- ===== src/Cursor/ValidBitmap.antt =====
-- crates/protocol/src/cursor.rs: the tests of `validate_cursor_batch` on one bitmap.
use glacialcast.Prelude.{
  ℕ, ◌*◌, ◌≤◌, ◌<◌, ◌≡◌, refl, Bool, false, not, ◌||◌, some, arith, length, ℤ, pos, negsuc, ltb,
  ◌==◌, subst, is_some_eq, leb, or_false,
}
use glacialcast.Cursor.Format.{
  CursorBitmap, max_cursor_bitmap_side, expected_len, bitmap_refused, is_negative, unsigned_abs,
}
use native.Mathlib.Nat.{mul-le-mul}
use glacialcast.Cursor.Valid.{Within, BitmapIsValid}

hotspot-Within :
    (z : ℤ) (side : ℕ) → is_negative z ≡ false → leb side (unsigned_abs z) ≡ false → Within z side
hotspot-Within (pos n) side p q = (n, refl, ground arith)
hotspot-Within (negsuc n) side p q = absurd (cc p)

Within-hotspot :
    (z : ℤ) (side : ℕ)
    → Within z side
    → (is_negative z ≡ false) × (leb side (unsigned_abs z) ≡ false)
Within-hotspot (pos n) side (m, e, h) = ground arith
Within-hotspot (negsuc n) side (m, e, h) = absurd (cc e)

area_bound : (w h : ℕ) → w ≤ 512 → h ≤ 512 → w * h ≤ 262_144
area_bound w h p q = grind (arith, mul-le-mul)

expected_len_lem :
    (b : CursorBitmap)
    → b.width ≤ max_cursor_bitmap_side
    → b.height ≤ max_cursor_bitmap_side
    → expected_len b ≡ some (b.width * b.height * 4)
unfolding expected_len
expected_len_lem b p q = ground (arith, area_bound b.width b.height)

-- The ten tests of a refused bitmap fail together.
none_of_ten :
    (a b c d e f g h i j : Bool)
    → (a || b || c || d || e || f || g || h || i || j) ≡ false
    → (a ≡ false)
      × (b ≡ false)
      × (c ≡ false)
      × (d ≡ false)
      × (e ≡ false)
      × (f ≡ false)
      × (g ≡ false)
      × (h ≡ false)
      × (i ≡ false)
      × (j ≡ false)
none_of_ten a b c d e f g h i j w =
    let (w8, w9) = or_false (a || b || c || d || e || f || g || h || i) j w in
    let (w7, v8) = or_false (a || b || c || d || e || f || g || h) i w8 in
    let (w6, v7) = or_false (a || b || c || d || e || f || g) h w7 in
    let (w5, v6) = or_false (a || b || c || d || e || f) g w6 in
    let (w4, v5) = or_false (a || b || c || d || e) f w5 in
    let (w3, v4) = or_false (a || b || c || d) e w4 in
    let (w2, v3) = or_false (a || b || c) d w3 in
    let (w1, v2) = or_false (a || b) c w2 in
    let (v0, v1) = or_false a b w1 in (v0, v1, v2, v3, v4, v5, v6, v7, v8, w9)

pub bitmap_refused-IsValid :
    (id : ℕ) (b : CursorBitmap) → bitmap_refused id b ≡ false → BitmapIsValid id b
unfolding bitmap_refused
bitmap_refused-IsValid id b refused =
    let (t0, t1, t2, t3, t4, t5, t6, t7, t8, t9) =
      none_of_ten (id == 0) (b.width == 0) (b.height == 0) (ltb max_cursor_bitmap_side b.width)
        (ltb max_cursor_bitmap_side b.height) (is_negative b.hotspot_x) (is_negative b.hotspot_y)
        (leb b.width (unsigned_abs b.hotspot_x)) (leb b.height (unsigned_abs b.hotspot_y))
        (not (is_some_eq (expected_len b) (length b.rgba))) refused in
    let broad : b.width ≤ max_cursor_bitmap_side = le_of_test t3 in
    let tall : b.height ≤ max_cursor_bitmap_side = le_of_test t4 in
    record {
      named = pos_of_test t0;
      wide = (pos_of_test t1, broad);
      high = (pos_of_test t2, tall);
      hotspot_x = hotspot-Within b.hotspot_x b.width t5 t7;
      hotspot_y = hotspot-Within b.hotspot_y b.height t6 t8;
      exact = len_of_test (
          subst (λ o. not (is_some_eq o (length b.rgba)) ≡ false) (expected_len_lem b broad tall)
            t9);
    }
  where
    le_of_test : {m n : ℕ} → ltb m n ≡ false → n ≤ m
    le_of_test p = ground arith

    pos_of_test : {n : ℕ} → (n == 0) ≡ false → 0 < n
    pos_of_test p = ground arith

    len_of_test : {m n : ℕ} → not (m == n) ≡ false → n ≡ m
    len_of_test p = ground arith

pub IsValid-bitmap_refused :
    (id : ℕ) (b : CursorBitmap) → BitmapIsValid id b → bitmap_refused id b ≡ false
unfolding bitmap_refused
IsValid-bitmap_refused id b v =
    let (x0, x1) = Within-hotspot b.hotspot_x b.width v.hotspot_x in
    let (y0, y1) = Within-hotspot b.hotspot_y b.height v.hotspot_y in
    rw (x0, x1, y0, y1, expected_len_lem b v.wide.1 v.high.1)
      (tests_pass id b.width b.height (length b.rgba) v.named v.wide v.high v.exact)
  where
    tests_pass :
        (n w h len : ℕ)
        → 0 < n
        → (0 < w) × (w ≤ max_cursor_bitmap_side)
        → (0 < h) × (h ≤ max_cursor_bitmap_side)
        → len ≡ w * h * 4
        → (n == 0
            || w == 0
            || h == 0
            || ltb max_cursor_bitmap_side w
            || ltb max_cursor_bitmap_side h
            || false
            || false
            || false
            || false
            || not (w * h * 4 == len))
          ≡ false
    tests_pass n w h len p q r e = ground arith
