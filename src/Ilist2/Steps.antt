-- ===== src/Ilist2/Steps.antt =====
-- The bodies of `ilist2_move_front_by_idx` and `ilist2_move_back_by_idx` on each branch, and what a
-- list of slots says of one node among them.
use scroller.Prelude.{
  ℕ, ◌<◌, ◌≡◌, ◌≢◌, refl, sym, subst, List, [], ◌∷◌, ◌++◌, NotIn, All, Distinct, Slots,
  Slots-middle, Slots-middle_back, append_assoc, ne→==, Distinct-apart, Distinct-append_left,
  All-append_left, All-append_right,
}
use scroller.Ilist2.{undef, Ilist2, write_next, write_prev, move_back_from, move_front_from}
use scroller.Ilist2.Chain.{relink}

module _ {ℓ} {A : Type ℓ} (l : Ilist2 A) (x m k : ℕ) where
  pub move_front-first : move_front_from l x undef k ≡ l
  unfolding move_front_from
  move_front-first = refl

  pub move_back-last : move_back_from l x m undef ≡ l
  unfolding move_back_from
  move_back-last = refl

  pub move_front-last :
      (y : ℕ)
      → l.front_idx ≡ y
      → m ≢ undef
      → move_front_from l x m undef ≡ record l {
        back_idx = m;
        nodes = relink (write_prev (write_next l.nodes m undef) y x) x undef y;
        front_idx = x;
      }
  unfolding move_front_from
  move_front-last y e ne = rw (e, ne→== m undef ne)

  pub move_front-mid :
      (y : ℕ)
      → l.front_idx ≡ y
      → m ≢ undef
      → k ≢ undef
      → move_front_from l x m k ≡ record l {
        nodes = relink (write_prev (write_prev (write_next l.nodes m k) k m) y x) x undef y;
        front_idx = x;
      }
  unfolding move_front_from
  move_front-mid y e ne ne' = rw (e, ne→== m undef ne, ne→== k undef ne')

  pub move_back-first :
      k ≢ undef
      → move_back_from l x undef k ≡ record l {
        front_idx = k;
        nodes = relink (write_next (write_prev l.nodes k undef) l.back_idx x) x l.back_idx undef;
        back_idx = x;
      }
  unfolding move_back_from
  move_back-first ne = rw (ne→== k undef ne)

  pub move_back-mid :
      m ≢ undef
      → k ≢ undef
      → move_back_from l x m k ≡ record l {
        nodes =
            relink
              (write_next (write_next (write_prev l.nodes k m) m k) l.back_idx x)
              x
              l.back_idx
              undef;
        back_idx = x;
      }
  unfolding move_back_from
  move_back-mid ne ne' = rw (ne→== m undef ne, ne→== k undef ne')

-- What a list of slots with one node singled out says.
pub record Around (n : ℕ) (xs : List ℕ) (x : ℕ) (ys free : List ℕ) : Type 0 where
  pub moved : Slots n ((x ∷ xs ++ ys) ++ free)
  pub tailed : Slots n (((xs ++ ys) ++ x ∷ []) ++ free)
  pub out : NotIn x (xs ++ ys)
  pub apart : NotIn x free
  pub rest : Distinct (xs ++ ys)
  pub rest_apart : All (λ z. NotIn z free) (xs ++ ys)
  pub low : All (λ z. z < n) (xs ++ ys)
  pub across : All (λ z. NotIn z ys) xs

pub around :
    (n : ℕ) (xs : List ℕ) (x : ℕ) (ys free : List ℕ)
    → Slots n ((xs ++ x ∷ ys) ++ free)
    → Around n xs x ys free
around n xs x ys free s =
    let a = subst (Slots n) (append_assoc xs (x ∷ ys) free) s in
    let b = Slots-middle xs (ys ++ free) n x a in
    let c : Slots n (x ∷ (xs ++ ys) ++ free) =
      subst (λ zs. Slots n (x ∷ zs)) (sym (append_assoc xs ys free)) b in
    record {
      moved = c;
      tailed =
          subst (Slots n) (sym (append_assoc (xs ++ ys) (x ∷ []) free))
            (Slots-middle_back (xs ++ ys) free n x c);
      out = All-append_left (λ z. x ≢ z) (xs ++ ys) free c.distinct.0;
      apart = All-append_right (λ z. x ≢ z) (xs ++ ys) free c.distinct.0;
      rest = Distinct-append_left (xs ++ ys) free c.distinct.1;
      rest_apart = Distinct-apart (xs ++ ys) free c.distinct.1;
      low = All-append_left (λ z. z < n) (xs ++ ys) free c.inside.1;
      across = Distinct-apart xs ys (Distinct-append_left (xs ++ ys) free c.distinct.1);
    }

pub NotIn-flip : (xs ys : List ℕ) (z : ℕ) → All (λ a. NotIn a (z ∷ ys)) xs → NotIn z xs
NotIn-flip [] ys z h = tt
NotIn-flip (x ∷ xs) ys z h = ((λ e. h.0.0 (sym e)), NotIn-flip xs ys z h.1)
