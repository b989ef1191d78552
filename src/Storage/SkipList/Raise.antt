-- ===== src/Storage/SkipList/Raise.antt =====
-- src/storage/SkipList.cpp: enlargeHeight keeps a list well formed, with more levels.
use ddbms.Base.{
  ℕ, ◌≤◌, ◌≡◌, refl, sym, ◌∙◌, fun_ext, ◌≢◌, inl, inr, true, false, some, List, [], ◌∷◌, ltb, ◌==◌,
  if◌then◌else◌, All, All-map, arith, Bool-cases,
}
use ddbms.Storage.Block.{◌>>=◌}
use ddbms.Storage.SkipList.{Ptr, Node, Heap, SkipList, write, max_height}
use ddbms.Storage.SkipList.Update.{enlarge_height, raise, head_nexts, tail_nexts}
use ddbms.Storage.SkipList.Chain.{Entry, first_ptr, links, end_node, IsPlaced, IsSkipList, Lacks}
use ddbms.Storage.SkipList.Link.{at-write, length-write, ==_refl}
use ddbms.Storage.SkipList.Arrays.{Out}
use ddbms.Storage.SkipList.Sites.{IsChain-write}

pub differs : (a b : ℕ) → a ≢ b → (b == a) ≡ false
differs a b n = ground (arith, n)

pub IsPlaced-Lacks :
    (head tail : Ptr) (height i : ℕ) (cs : List Entry)
    → All (IsPlaced head tail height) cs
    → height ≤ i
    → Lacks i cs
unfolding Lacks
IsPlaced-Lacks head tail height i cs a l =
    All-map (IsPlaced head tail height) (λ c. ltb i c.height ≡ false) cs
      (λ c p. above c.height p.in_levels) a
  where
    above : (n : ℕ) → n ≤ height → ltb i n ≡ false
    above n h = ground (arith, h, l)

first_ptr-above : (tail : Ptr) (i : ℕ) (cs : List Entry) → Lacks i cs → first_ptr tail i cs ≡ tail
unfolding first_ptr Lacks
first_ptr-above tail i [] l = refl
first_ptr-above tail i (c ∷ cs) l = rw (l.0, if◌then◌else◌) (first_ptr-above tail i cs (l.1))

-- The new array of the head.
head_nexts-links :
    (head tail : Ptr) (old height : ℕ) (cs : List Entry)
    → ltb old height ≡ true
    → All (IsPlaced head tail old) cs
    → head_nexts old height tail (links tail old cs) ≡ links tail height cs
head_nexts-links head tail old height cs l a = fun_ext λ j. elim (Bool-cases (ltb j old)) [
  | inl t ↦ rw (t, below j t, if◌then◌else◌) refl
  | inr f ↦
      rw
        (
          f,
          if◌then◌else◌,
          first_ptr-above tail j cs (IsPlaced-Lacks head tail old j cs a (above j f)),
        )
        refl
]
  where
    below : (j : ℕ) → ltb j old ≡ true → ltb j height ≡ true
    below j t = ground (arith, t, l)

    above : (j : ℕ) → ltb j old ≡ false → old ≤ j
    above j f = ground (arith, f)

abbrev pub levels : ℕ → ℕ → ℕ
levels old height = if ltb old height then height else old

pub record Raised (s : SkipList) (old height : ℕ) (cs : List Entry) : Type 0 where
  pub list : SkipList
  pub raised : raise old height s ≡ some list
  pub head_kept : list.head ≡ s.head
  pub tail_kept : list.tail ≡ s.tail
  pub is_list : IsSkipList list (levels old height) cs

IsPlaced-more :
    (head tail : Ptr) (old height : ℕ) (cs : List Entry)
    → old ≤ height
    → All (IsPlaced head tail old) cs
    → All (IsPlaced head tail height) cs
IsPlaced-more head tail old height cs l a =
    All-map (IsPlaced head tail old) (IsPlaced head tail height) cs
      (λ c p. record {
        not_null = p.not_null;
        not_head = p.not_head;
        not_tail = p.not_tail;
        one_level = p.one_level;
        in_levels = omega (arith, p.in_levels, l);
      })
      a

pub Out-head :
    (head tail : Ptr) (height : ℕ) (cs : List Entry)
    → All (IsPlaced head tail height) cs
    → Out head cs
Out-head head tail height cs a =
    All-map (IsPlaced head tail height) (λ c. (head == c.ptr) ≡ false) cs
      (λ c p. differs c.ptr head p.not_head) a

pub Out-tail :
    (head tail : Ptr) (height : ℕ) (cs : List Entry)
    → All (IsPlaced head tail height) cs
    → Out tail cs
Out-tail head tail height cs a =
    All-map (IsPlaced head tail height) (λ c. (tail == c.ptr) ≡ false) cs
      (λ c p. differs c.ptr tail p.not_tail) a

enlarge_lem :
    (s : SkipList) (old height : ℕ) (cs : List Entry)
    → IsSkipList s old cs
    → ltb old height ≡ true
    → height ≤ max_height
    → (s' : SkipList) × (enlarge_height height s ≡ some s')
      × (s'.head ≡ s.head)
      × (s'.tail ≡ s.tail)
      × IsSkipList s' height cs
unfolding enlarge_height
enlarge_lem s old height cs w l m = (
  record s { heap = heap },
  rw
      (
        w.head_node,
        ◌>>=◌,
        w.tail_node,
        ◌>>=◌,
        head_nexts-links s.head s.tail old height cs l w.placed,
      )
      refl,
  refl,
  refl,
  record {
    head_node =
        at-write first s.tail s.head (some tail_node)
        ∙ rw (differs s.tail s.head (λ e. w.ends_apart (sym e)), if◌then◌else◌)
            (at-write s.heap s.head s.head (some head_node)
              ∙ rw (==_refl s.head, if◌then◌else◌) refl);
    tail_node =
        at-write first s.tail s.tail (some tail_node) ∙ rw (==_refl s.tail, if◌then◌else◌) refl;
    chain =
        IsChain-write first s.tail s.tail (some tail_node) cs
          (Out-tail s.head s.tail old cs w.placed)
          (IsChain-write s.heap s.tail s.head (some head_node) cs
            (Out-head s.head s.tail old cs w.placed) w.chain);
    sorted = w.sorted;
    apart = w.apart;
    placed = IsPlaced-more s.head s.tail old height cs (less old height l) w.placed;
    ends_apart = w.ends_apart;
    head_not_null = w.head_not_null;
    tail_not_null = w.tail_not_null;
    one_level = omega (arith, w.one_level, less old height l);
    levels = m;
    room = omega (
      arith,
      w.room,
      length-write first s.tail (some tail_node),
      length-write s.heap s.head (some head_node),
    );
    count = w.count;
    size = w.size;
  },
)
  where
    less : (a b : ℕ) → ltb a b ≡ true → a ≤ b
    less a b h = ground (arith, h)

    head_node : Node
    head_node = end_node height (links s.tail height cs)

    tail_node : Node
    tail_node = end_node height (tail_nexts height)

    first : Heap
    first = write s.heap s.head (some head_node)

    heap : Heap
    heap = write first s.tail (some tail_node)

pub raise_lem :
    (s : SkipList) (old height : ℕ) (cs : List Entry)
    → IsSkipList s old cs
    → height ≤ max_height
    → Raised s old height cs
unfolding raise
raise_lem s old height cs w m = elim (Bool-cases (ltb old height)) [
  | inl t ↦
      let r = enlarge_lem s old height cs w t m in
      record {
        list = r.0;
        raised = rw (t, if◌then◌else◌) (r.1);
        head_kept = r.2;
        tail_kept = r.3;
        is_list = rw (t, if◌then◌else◌) (r.4);
      }
  | inr f ↦ record {
    list = s;
    raised = rw (f, if◌then◌else◌) refl;
    head_kept = refl;
    tail_kept = refl;
    is_list = rw (f, if◌then◌else◌) w;
  }
]
