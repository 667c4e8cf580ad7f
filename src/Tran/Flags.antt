-- ===== src/Tran/Flags.antt =====
-- The flags as a map from transactions, and the rule of visibility.
use scroller.Prelude.{
  ℕ, zero, suc, ◌-◌, ◌/◌, ◌%◌, ◌≤◌, ◌<◌, ◌≡◌, ◌≢◌, ◌↔◌, ◌⊎◌, inl, inr, refl, ap, Bool, some, leb,
  lt→ltb, update, true, false, ◌&&◌, ◌==◌, if◌then◌else◌, update_self, update_ne, arith, Bool-cases,
  ℕ_discrete, eq-of-==, eq→==, ne→==,
}
use scroller.Tran.{
  TranPage, TranFlag, tf_aborted, tf_commited, invalid_id, bit_at, clear_bit, set_bit, put_bit,
  to_flag, in_page, tran_flag_get, tran_flag_put, tran_row_is_visible,
}

-- A test of all the numbers below a bound.
every : ℕ → (ℕ → Bool) → Bool
every zero p = true
every (suc n) p = let rest = every n p in if p n then rest else false

every-at : (n : ℕ) (p : ℕ → Bool) (x : ℕ) → every n p ≡ true → x < n → p x ≡ true
unfolding every
every-at zero p x h lt = absurd (omega arith)
every-at (suc n) p x h lt = elim (Bool-cases (p n)) [
  | inl yes_n ↦ elim (ℕ_discrete x n) [
    | yes e ↦ rw e yes_n
    | no ne ↦ every-at n p x (rw yes_n at h) (omega arith)
  ]
  | inr no_n ↦ absurd (let h' = rw no_n at h in ground arith)
]

-- What writing bit `k` of a byte does to its bit `j`.
abbrev bit_law : ℕ → ℕ → ℕ → Bool
bit_law byte k j =
    let old = bit_at byte j in
    (bit_at (set_bit byte k) j == (if j == k then 1 else old))
    && (bit_at (clear_bit byte k) j == (if j == k then 0 else old))

bit_table : every 256 (λ b. every 8 (λ k. every 8 (bit_law b k))) ≡ true
unfolding every
bit_table = refl

bit_law-holds : (b k j : ℕ) → b < 256 → k < 8 → j < 8 → bit_law b k j ≡ true
bit_law-holds b k j hb hk hj =
    every-at 8 (bit_law b k) j
      (every-at 8 (λ i. every 8 (bit_law b i)) k
        (every-at 256 (λ a. every 8 (λ i. every 8 (bit_law a i))) b bit_table hb) hk)
      hj

both : (p q : Bool) → (p && q) ≡ true → (p ≡ true) × (q ≡ true)
both true true e = (refl, refl)
both true false e = absurd (ground arith)
both false q e = absurd (ground arith)

flag_bit : TranFlag → ℕ
flag_bit tf_aborted = 0
flag_bit tf_commited = 1

bit-put_bit :
    (flag : TranFlag) (b k j : ℕ)
    → b < 256
    → k < 8
    → j < 8
    → bit_at (put_bit flag b k) j ≡ (if j == k then flag_bit flag else bit_at b j)
unfolding flag_bit
bit-put_bit tf_aborted b k j hb hk hj = eq-of-== _ _ (both _ _ (bit_law-holds b k j hb hk hj)).1
bit-put_bit tf_commited b k j hb hk hj = eq-of-== _ _ (both _ _ (bit_law-holds b k j hb hk hj)).0

to_flag-flag_bit : (flag : TranFlag) → to_flag (flag_bit flag) ≡ flag
unfolding flag_bit
to_flag-flag_bit tf_aborted = refl
to_flag-flag_bit tf_commited = refl

abbrev pub AreBytes : TranPage → Type 0
AreBytes page = (p : ℕ) → page.datum p < 256

-- The bits of two numbers that are in the page.
bits_apart :
    (page : TranPage) (tid other : ℕ) (flag : TranFlag)
    → AreBytes page
    → page.tid_start ≤ tid
    → page.tid_start ≤ other
    → let i = tid - page.tid_start in
      let j = other - page.tid_start in
      to_flag (
        bit_at
          (update page.datum (i / 8) (put_bit flag (page.datum (i / 8)) (i % 8)) (j / 8))
          (j % 8))
      ≡ (if other == tid then flag else to_flag (bit_at (page.datum (j / 8)) (j % 8)))
bits_apart page tid other flag bytes ht ho =
    let i = tid - page.tid_start in
    let j = other - page.tid_start in
    let v = put_bit flag (page.datum (i / 8)) (i % 8) in
    elim (ℕ_discrete (j / 8) (i / 8)) [
      | no apart ↦ rw (
        update_ne page.datum (i / 8) (j / 8) v apart,
        ne→== other tid (λ e. apart (ap (λ x. (x - page.tid_start) / 8) e)),
      )
      | yes same ↦
          let law =
            bit-put_bit flag (page.datum (i / 8)) (i % 8) (j % 8) (bytes (i / 8)) (omega arith)
              (omega arith) in
          rw (same, update_self page.datum (i / 8) v, law)
            (elim (ℕ_discrete other tid) [
              | yes e ↦
                  rw
                    (
                      eq→== (j % 8) (i % 8) (ap (λ x. (x - page.tid_start) % 8) e),
                      eq→== other tid e,
                    )
                    (to_flag-flag_bit flag)
              | no ne ↦ rw (ne→== (j % 8) (i % 8) (omega arith), ne→== other tid ne)
            ])
    ]

-- In a page of bytes, and for a transaction above the start of the page whose bit lies in the page,
-- `tran_flag_put` succeeds, and then `tran_flag_get` gives the flag for that transaction and what it
-- gave before for every other number, in the page or outside.
pub flag_get-put :
    (page : TranPage) (tid : ℕ) (flag : TranFlag)
    → AreBytes page
    → page.tid_start < tid
    → (tid - page.tid_start) / 8 < page.size
    → (after : TranPage) × (tran_flag_put page tid flag ≡ some after)
      × ((other : ℕ)
          → tran_flag_get after other ≡ (if other == tid then flag else tran_flag_get page other))
unfolding tran_flag_get tran_flag_put
flag_get-put page tid flag bytes above inside =
    let byte = (tid - page.tid_start) / 8 in
    (
      record page {
        datum =
            update page.datum byte (put_bit flag (page.datum byte) ((tid - page.tid_start) % 8));
      },
      rw (lt→ltb page.tid_start tid above, lt→ltb byte page.size inside) refl,
      λ other. elim (Bool-cases (leb page.tid_start other && in_page page other)) [
        | inl here ↦ rw here (bits_apart page tid other flag bytes (omega arith) (low other here))
        | inr there ↦ rw (there, ne→== other tid (λ e. absurd (differs other e there))) refl
      ],
    )
  where
    low :
        (other : ℕ)
        → (leb page.tid_start other && in_page page other) ≡ true
        → page.tid_start ≤ other
    low other h = ground arith

    differs :
        (other : ℕ) → other ≡ tid → (leb page.tid_start other && in_page page other) ≡ false → ⊥
    differs other e h = ground arith

-- Where the invalid number has the flag "aborted", and a row that the transaction inserted is not
-- deleted or deleted by itself, `tran_row_is_visible` says that the row was inserted by the
-- transaction itself or by one that committed, and was deleted by neither.
pub row_is_visible_iff :
    (page : TranPage) (tid tmin tmax : ℕ)
    → tran_flag_get page invalid_id ≡ tf_aborted
    → (tid ≡ tmin → (tmax ≡ tid) ⊎ (tmax ≡ invalid_id))
    → (tran_row_is_visible page tid tmin tmax ≡ true) ↔ (
        ((tmin ≡ tid) ⊎ (tran_flag_get page tmin ≡ tf_commited))
        × (tmax ≢ tid)
        × (tran_flag_get page tmax ≡ tf_aborted))
unfolding tran_row_is_visible
row_is_visible_iff page tid tmin tmax clear own = (λ h. grind arith, λ h. grind arith)
