-- ===== src/Ihash/Outcome.antt =====
-- How a touch of a key ends on a well-formed ihash: with a node for the key, or without a free one.
use scroller.Prelude.{
  ℕ, suc, ◌+◌, ◌≡◌, ◌≢◌, ◌⊎◌, inl, inr, refl, sym, ap, ◌∙◌, none, some, List, [], ◌∷◌, ◌++◌, arith,
  All, update, update_self, ℕ_discrete, subst, eq→==, ne→==,
}
use scroller.Ihash.{
  write_key, write_next, Ihash, Node, undef, bucket_of, ihash_get_fn, ihash_touch_fn, append_node,
  Search, found, missing, unfinished, answer,
}
use scroller.Ihash.Chain.{seek}
use scroller.Ihash.Map.{IsHash, bucket_of-lt}
use scroller.Ihash.Local.{local-IsHash, local-lookup}
use scroller.Ihash.Write.{get-seek}
use scroller.Ihash.Extend.{last_place, find-extend, seek-missing, seek-extend}
use scroller.Ihash.Append.{appended}
use scroller.Ihash.Touch.{
  IsTouched, touch-found, touch-missing, append-full, append-some, append_IsLocal, empty_IsLocal,
}

module _ {ℓ} {A : Type ℓ} where
  pub seek_finishes : (f : ℕ → Node A) (key e : ℕ) (ps : List ℕ) → seek f key e ps ≢ unfinished
  seek_finishes f key e [] s = elim (ℕ_discrete key (f e).key) [
    | yes h ↦ let z : found e ≡ unfinished = rw (eq→== key (f e).key h) at s in ground arith
    | no h ↦ let z : missing e ≡ unfinished = rw (ne→== key (f e).key h) at s in ground arith
  ]
  seek_finishes f key e (p ∷ ps) s = elim (ℕ_discrete key (f e).key) [
    | yes h ↦ let z : found e ≡ unfinished = rw (eq→== key (f e).key h) at s in ground arith
    | no h ↦ seek_finishes f key p ps (rw (ne→== key (f e).key h) at s)
  ]

  module _ (h : Ihash A) (chains : ℕ → List ℕ) (free : List ℕ) (owner : ℕ → ℕ) (key : ℕ)
      (w : IsHash h chains free owner) where
    -- What a touch of a key that is not there comes to.
    pub record Touch (p : ℕ) : Type ℓ where
      pub result : Ihash A
      pub chains_after : ℕ → List ℕ
      pub free_after : List ℕ
      pub owner_after : ℕ → ℕ
      pub returns : ihash_touch_fn h key ≡ some (result, some p)
      pub touched : IsTouched h result key p chains_after free_after owner_after

    Touch-empty : key ≢ undef → (h.nodes (bucket_of h key)).key ≡ undef → Touch (bucket_of h key)
    unfolding ihash_touch_fn
    Touch-empty ne e =
        let b = bucket_of h key in
        let r = record h { nodes = write_next (write_key h.nodes b key) b undef } in
        let (l, own) =
          empty_IsLocal h chains free owner key w key
            ((w.buckets b (bucket_of-lt h key w.some_bucket)).empty e) r refl in
        let hash = local-IsHash h r chains free owner b [] free owner w l in
        record {
          result = r;
          chains_after = update chains b [];
          free_after = free;
          owner_after = owner;
          returns = rw (eq→== undef (h.nodes b).key (sym e)) refl;
          touched = record {
            hash = hash;
            here =
                get-seek r (update chains b []) free owner key hash (λ q. ne (sym own ∙ q))
                ∙ rw (update_self chains b [], eq→== key (r.nodes b).key (sym own)) refl;
            others = λ j jne other.
                local-lookup h r chains free owner b [] free owner j w l refl jne (λ here.
                  rw
                    (
                      (w.buckets b l.inside).empty e,
                      ne→== j (r.nodes b).key (λ q. other (q ∙ own)),
                      ne→== j (h.nodes b).key (λ q. jne (q ∙ e)),
                    )
                    refl);
          };
        }

    Touch-append :
        key ≢ undef
        → h.chain_head ≢ undef
        → (h.nodes (bucket_of h key)).key ≢ undef
        → (new : ℕ) (rest : List ℕ) → free ≡ new ∷ rest
        → h.bucketsz + h.chain_head ≡ new
        → All (λ q. (h.nodes q).key ≢ key) (bucket_of h key ∷ chains (bucket_of h key))
        → ihash_touch_fn h key
          ≡ some (append_node h key (last_place (bucket_of h key) (chains (bucket_of h key))))
        → Touch new
    Touch-append ne some_node taken new rest split place differ code =
        let b = bucket_of h key in
        let ps = chains b in
        let e = last_place b ps in
        let r = record h {
          chain_head = (write_next h.nodes e h.chain_head new).next;
          nodes = appended h.nodes e h.chain_head new key;
        } in
        let owner' = update owner new (suc b) in
        let ps' = ps ++ new ∷ [] in
        let chains' = update chains b ps' in
        let (l, x, out) =
          append_IsLocal h chains free owner key w new rest some_node place split ne taken differ r
            refl in
        let hash = local-IsHash h r chains free owner b ps' rest owner' w l in
        record {
          result = r;
          chains_after = chains';
          free_after = rest;
          owner_after = owner';
          returns =
              code
              ∙ ap some (
                  append-some h chains free owner key w e some_node
                  ∙ ap
                      (λ z. (
                        record h {
                          chain_head = (write_next h.nodes e h.chain_head z).next;
                          nodes = appended h.nodes e h.chain_head z key;
                        },
                        some z,
                      ))
                      place);
          touched = record {
            hash = hash;
            here =
                get-seek r chains' rest owner' key hash (λ q. taken (sym (x.same_key b out.0) ∙ q))
                ∙ rw
                    (
                      update_self chains b ps',
                      seek-extend h.nodes r.nodes h.bucketsz e new key b ps x out differ,
                    )
                    refl;
            others = λ j jne other.
                local-lookup h r chains free owner b ps' rest owner' j w l refl jne
                  (λ here. find-extend h.nodes r.nodes h.bucketsz e new key j (b ∷ ps) x other out);
          };
        }

    Touch-kept : {p : ℕ} → ihash_get_fn h key ≡ some (some p) → Touch p
    Touch-kept {p} e = record {
      result = h;
      chains_after = chains;
      free_after = free;
      owner_after = owner;
      returns = touch-found h key e;
      touched = record { hash = w; here = e; others = λ j jne other. refl };
    }

    -- Nothing is free.
    abbrev pub Full : Type ℓ
    Full = (ihash_touch_fn h key ≡ some (h, none)) × (ihash_get_fn h key ≡ some none) × (free ≡ [])

    Touch-missing :
        key ≢ undef
        → (h.nodes (bucket_of h key)).key ≢ undef
        → (s : Search) → seek h.nodes key (bucket_of h key) (chains (bucket_of h key)) ≡ s
        → (ps : List ℕ) → free ≡ ps
        → ((p : ℕ) × Touch p) ⊎ Full
    Touch-missing ne taken (found p) s ps split =
        inl (p, Touch-kept (get-seek h chains free owner key w taken ∙ ap answer s))
    Touch-missing ne taken unfinished s ps split =
        absurd (seek_finishes h.nodes key (bucket_of h key) (chains (bucket_of h key)) s)
    Touch-missing ne taken (missing p) s [] split =
        let full : h.chain_head ≡ undef = rw split at w.frees in
        inr (
          touch-missing h chains free owner key w p taken s
              ∙ ap some (append-full h chains free owner key w p full),
          get-seek h chains free owner key w taken ∙ ap answer s,
          split,
        )
    Touch-missing ne taken (missing p) s (new ∷ rest) split =
        let b = bucket_of h key in
        let (last, differ) = seek-missing h.nodes key b (chains b) s in
        let fr : (h.chain_head ≢ undef) × (h.bucketsz + h.chain_head ≡ new) × _ =
          rw split at w.frees in
        inl (
          new,
          Touch-append ne fr.0 taken new rest split fr.1 differ (
              subst (λ q. ihash_touch_fn h key ≡ some (append_node h key q)) last
                (touch-missing h chains free owner key w p taken s)),
        )

    pub Touch-IsTouched : key ≢ undef → ((p : ℕ) × Touch p) ⊎ Full
    Touch-IsTouched ne =
        let b = bucket_of h key in
        elim (ℕ_discrete (h.nodes b).key undef) [
          | yes e ↦ inl (b, Touch-empty ne e)
          | no taken ↦ Touch-missing ne taken (seek h.nodes key b (chains b)) refl free refl
        ]
