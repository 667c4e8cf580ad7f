-- ===== src/Icache/Order.antt =====
-- The entries of the hash and the nodes of the list belong to each other, and `icache_touch_fn` brings
-- the key to the front where its entry is there or a node is free.
use scroller.Prelude.{
  ℕ, ◌≤◌, ◌≡◌, ◌≢◌, inl, inr, refl, sym, ap, ◌∙◌, Option, none, some, List, [], ◌∷◌, ◌==◌,
  if◌then◌else◌, arith, All, All-at, In, NotIn, update, update_self, update_ne, ℕ_discrete, subst,
  eq→==, ne→==,
}
use scroller.Ihash.{Ihash, undef, ihash_get_fn}
use scroller.Ihash.Chain.{lookup}
use scroller.Ihash.Map.{IsHash}
use scroller.Ihash.Clear.{places, clear-IsHash}
use scroller.Ihash.Write.{write_value-lookup}
use scroller.Ilist2.{Ilist2, put_front}
use scroller.Ilist2.Chain.{IsList}
use scroller.Ilist2.Ends.{slot_facts}
use scroller.Ilist2.Clear.{range, clear-IsList}
use scroller.Ilist2.Puts.{put_front-IsList}
use scroller.Icache.{Icache, Entry, enter, icache_clear}

-- The key of node `i` of the list.
abbrev pub key_at : Ilist2 ℕ → ℕ → ℕ
key_at list i = (list.nodes i).value

pub kept_keys :
    (list list' : Ilist2 ℕ) (x key : ℕ) (used : List ℕ)
    → ((i : ℕ) → key_at list' i ≡ update (key_at list) x key i)
    → NotIn x used
    → All (λ i. key_at list' i ≡ key_at list i) used
kept_keys list list' x key [] puts out = tt
kept_keys list list' x key (i ∷ used) puts out = (
  puts i ∙ update_ne (key_at list) x i key (λ s. out.0 (sym s)),
  kept_keys list list' x key used puts out.1,
)

module _ {ℓ} {A : Type ℓ} where
  -- The key of node `i` is in the hash, and its entry leads back to `i`.
  abbrev pub Held : Ihash (Entry A) → Ilist2 ℕ → ℕ → Type ℓ
  Held hash list i =
      (key_at list i ≢ undef)
      × (v : A) × (lookup hash (key_at list i) ≡ some (record { value = v; idx = i }))

  -- Every key but `key` that is in the hash is in the list.
  abbrev pub Listed : Ihash (Entry A) → Ilist2 ℕ → List ℕ → ℕ → Type ℓ
  Listed hash list used key =
      (j : ℕ)
      → j ≢ undef
      → j ≢ key
      → (e : Entry A) → lookup hash j ≡ some e
      → In e.idx used × (key_at list e.idx ≡ j)

  -- `used` are the nodes of the list, the one used last in front.
  pub record IsCache (cache : Icache A) (used free : List ℕ) : Type ℓ where
    pub chains : ℕ → List ℕ
    pub unchained : List ℕ
    pub owner : ℕ → ℕ
    pub hash : IsHash cache.hash chains unchained owner
    pub list : IsList cache.list used free
    pub held : All (Held cache.hash cache.list) used
    pub listed : Listed cache.hash cache.list used undef

  -- All but the node of the key, which is at `p` in the hash.
  pub record IsOpen (hash : Ihash (Entry A)) (list : Ilist2 ℕ) (used free : List ℕ) (key p : ℕ)
      : Type ℓ where
    pub chains : ℕ → List ℕ
    pub unchained : List ℕ
    pub owner : ℕ → ℕ
    pub is_hash : IsHash hash chains unchained owner
    pub is_list : IsList list used free
    pub held : All (Held hash list) used
    pub listed : Listed hash list used key
    pub apart : All (λ i. key_at list i ≢ key) used
    pub here : ihash_get_fn hash key ≡ some (some p)

  -- Entries stay held where their keys and what is found under them stay.
  pub Held-kept :
      (hash hash' : Ihash (Entry A)) (list list' : Ilist2 ℕ) (used : List ℕ)
      → All (λ i. key_at list' i ≡ key_at list i) used
      → All (λ i. lookup hash' (key_at list i) ≡ lookup hash (key_at list i)) used
      → All (Held hash list) used
      → All (Held hash' list') used
  Held-kept hash hash' list list' [] k f h = tt
  Held-kept hash hash' list list' (i ∷ used) k f h =
      (rw k.0 (h.0.0, h.0.1, f.0 ∙ h.0.2), Held-kept hash hash' list list' used k.1 f.1 h.1)

  pub kept_lookups :
      (hash hash' : Ihash (Entry A)) (list : Ilist2 ℕ) (key : ℕ) (v : Entry A) (used : List ℕ)
      → ((j : ℕ) → j ≢ undef → lookup hash' j ≡ (if j == key then some v else lookup hash j))
      → All (λ i. key_at list i ≢ key) used
      → All (Held hash list) used
      → All (λ i. lookup hash' (key_at list i) ≡ lookup hash (key_at list i)) used
  kept_lookups hash hash' list key v [] same apart h = tt
  kept_lookups hash hash' list key v (i ∷ used) same apart h = (
    same (key_at list i) h.0.0 ∙ rw (ne→== (key_at list i) key apart.0) refl,
    kept_lookups hash hash' list key v used same apart.1 h.1,
  )

  -- The key takes the first free node of the list and stands in front.
  pub enter-IsCache :
      (cache : Icache A) (hash : Ihash (Entry A)) (list : Ilist2 ℕ) (used : List ℕ) (x : ℕ)
      (free : List ℕ) (key p : ℕ)
      → key ≢ undef
      → IsOpen hash list used (x ∷ free) key p
      → IsCache (enter cache hash list p key) (x ∷ used) free
        × ((j : ℕ)
            → j ≢ undef
            → j ≢ key
            → lookup (enter cache hash list p key).hash j ≡ lookup hash j)
        × (key_at (enter cache hash list p key).list x ≡ key)
  unfolding enter
  enter-IsCache cache hash list used x free key p ne w =
      let put = put_front list key in
      let v = record (hash.nodes p).value { idx = put.1 } in
      let (is, at, puts) = put_front-IsList list used x free key w.is_list in
      let (hash', stored) =
        write_value-lookup hash w.chains w.unchained w.owner key w.is_hash v ne w.here in
      let (_, out, _) = slot_facts list.listsz used free x w.is_list.slots in
      let there : key_at put.0 x ≡ key = puts x ∙ update_self (key_at list) x key in
      let found : lookup (enter cache hash list p key).hash key ≡ some v =
        stored key ne ∙ rw (eq→== key key refl) refl in
      let others : (j : ℕ)
          → j ≢ undef
          → j ≢ key
          → lookup (enter cache hash list p key).hash j ≡ lookup hash j =
        λ j jne other. stored j jne ∙ rw (ne→== j key other) refl in
      (
        record {
          chains = _;
          unchained = w.unchained;
          owner = w.owner;
          hash = hash';
          list = is;
          held = (
            rw there (ne, (hash.nodes p).value.value, found ∙ rw at refl),
            Held-kept hash (enter cache hash list p key).hash list put.0 used
                (kept_keys list put.0 x key used puts out)
                (kept_lookups hash (enter cache hash list p key).hash list key v used stored w.apart
                  w.held)
                w.held,
          );
          listed = λ j jne _ e l. elim (ℕ_discrete j key) [
            | yes s ↦
                let same : some v ≡ some e =
                  sym found
                  ∙ subst (λ z. lookup (enter cache hash list p key).hash z ≡ some e) s l in
                let i : x ≡ e.idx = sym at ∙ idx_of v e same in
                subst (λ z. In z (x ∷ used) × (key_at put.0 z ≡ j)) i (inl refl, there ∙ sym s)
            | no other ↦
                let (i, k) = w.listed j jne other e (sym (others j jne other) ∙ l) in
                let apart : x ≢ e.idx = All-at (λ z. x ≢ z) used e.idx out i in
                (inr i, puts e.idx ∙ update_ne (key_at list) x e.idx key (λ s. apart (sym s)) ∙ k)
          ];
        },
        others,
        there,
      )
    where
      idx_of : (a b : Entry A) → some a ≡ some b → a.idx ≡ b.idx
      idx_of a b e = let e' : a ≡ b = cc in ap (λ z. z.idx) e'

  -- Where there is a bucket and the sizes are 64-bit words, `icache_clear` leaves a well-formed
  -- cache without keys, all the list nodes of which are free.
  pub clear-IsCache :
      (cache : Icache A) (hash_fn : Option (ℕ → ℕ))
      → 1 ≤ cache.hash.bucketsz
      → cache.hash.chainsz ≤ undef
      → cache.list.listsz ≤ undef
      → IsCache (icache_clear cache hash_fn) [] (range 0 cache.list.listsz)
        × ((j : ℕ) → j ≢ undef → lookup (icache_clear cache hash_fn).hash j ≡ none)
  unfolding icache_clear
  clear-IsCache cache hash_fn pos le small =
      let (hash, empty) = clear-IsHash cache.hash hash_fn pos le in
      (
        record {
          chains = λ _. [];
          unchained = places cache.hash.chainsz cache.hash.bucketsz;
          owner = λ _. 0;
          hash = hash;
          list = (clear-IsList cache.list small).0;
          held = tt;
          listed = λ j jne other e l.
              absurd (let z : none ≡ some e = sym (empty j jne) ∙ l in ground arith);
        },
        empty,
      )
