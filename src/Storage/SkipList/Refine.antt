-- ===== src/Storage/SkipList/Refine.antt =====
-- src/storage/SkipList.cpp: a skip list under any calls answers as a map does.
use ddbms.Base.{ℕ, ◌≡◌, refl, ap, ◌∙◌, Bool, Option, none, some, List, [], ◌∷◌, if◌then◌else◌}
use ddbms.Storage.Block.{◌>>=◌}
use ddbms.Base.Bytes.{bytes_eq}
use ddbms.Storage.SkipList.{Ptr, Heap, SkipList, init}
use ddbms.Storage.SkipList.Update.{put, get, del, contains, clear}
use ddbms.Storage.SkipList.Chain.{Entry, IsSkipList}
use ddbms.Storage.SkipList.Key.{lookup}
use ddbms.Storage.SkipList.Lookup.{found, is_some, get_lem, contains_lem}
use ddbms.Storage.SkipList.Insert.{IsAllocator}
use ddbms.Storage.SkipList.Put.{updated, put_lem}
use ddbms.Storage.SkipList.Delete.{removed_key, del_lem}
use ddbms.Storage.SkipList.Clear.{init-IsSkipList, clear_lem}

-- The public operations; `puts` carries the draws of 1 of random_height.
pub data Call : Type 0 where
  puts : ℕ → List ℕ → List ℕ → Call
  gets : List ℕ → Call
  checks : List ℕ → Call
  deletes : List ℕ → Call
  clears : Call

pub data Reply : Type 0 where
  done : Reply
  answer : Bool × List ℕ → Reply
  told : Bool → Reply

unfoldable pub call : (Heap → Ptr) → Call → SkipList → Option (Reply × SkipList)
call alloc (puts ones key value) s = do s' ← put alloc ones key value s; some (done, s')
call alloc (gets key) s = do r ← get s key; some (answer r, s)
call alloc (checks key) s = do r ← contains s key; some (told r, s)
call alloc (deletes key) s = do r ← del key s; some (told (r.0), r.1)
call alloc clears s = do s' ← clear alloc s; some (done, s')

unfoldable pub run : (Heap → Ptr) → List Call → SkipList → Option (List Reply × SkipList)
run alloc [] s = some ([], s)
run alloc (c ∷ cs) s = do r ← call alloc c s; rest ← run alloc cs (r.1); some (r.0 ∷ rest.0, rest.1)

-- What the list promises: a map from keys to values.
abbrev pub Map : Type 0
Map = List ℕ → Option (List ℕ)

abbrev pub empty_map : Map
empty_map key = none

unfoldable pub map_call : Call → Map → Reply × Map
map_call (puts ones key value) m = (done, updated key value m)
map_call (gets key) m = (answer (found (m key)), m)
map_call (checks key) m = (told (is_some (m key)), m)
map_call (deletes key) m = (told (is_some (m key)), removed_key key m)
map_call clears m = (done, empty_map)

unfoldable pub map_run : List Call → Map → List Reply × Map
map_run [] m = ([], m)
map_run (c ∷ cs) m = let r = map_call c m in let rest = map_run cs (r.1) in (r.0 ∷ rest.0, rest.1)

-- A well-formed list whose sorted entries are the map.
pub record Refines (s : SkipList) (m : Map) : Type 0 where
  pub height : ℕ
  pub entries : List Entry
  pub is_list : IsSkipList s height entries
  pub maps : (k : List ℕ) → lookup k entries ≡ m k

pub init-Refines :
    (alloc : Heap → Ptr) (h : Heap) → IsAllocator alloc → Refines (init alloc h) empty_map
unfolding lookup
init-Refines alloc h a = record {
  height = 1;
  entries = [];
  is_list = init-IsSkipList alloc h a;
  maps = λ k. refl;
}

pub record Step (alloc : Heap → Ptr) (c : Call) (s : SkipList) (m : Map) : Type 0 where
  pub list : SkipList
  pub called : call alloc c s ≡ some ((map_call c m).0, list)
  pub refines : Refines list ((map_call c m).1)

pub call_lem :
    (alloc : Heap → Ptr) (c : Call) (s : SkipList) (m : Map)
    → IsAllocator alloc
    → Refines s m
    → Step alloc c s m
unfolding call map_call
call_lem alloc (puts ones key value) s m a w =
    let r = put_lem alloc ones key value s w.height w.entries a w.is_list in
    record {
      list = r.0;
      called = rw (r.1, ◌>>=◌) refl;
      refines = record {
        height = r.2.height;
        entries = r.2.entries;
        is_list = r.2.is_list;
        maps = λ k. r.2.maps k ∙ ap (λ t. if bytes_eq key k then some value else t) (w.maps k);
      };
    }
call_lem alloc (gets key) s m a w = record {
  list = s;
  called = rw (get_lem s w.height w.entries w.is_list key, ◌>>=◌, w.maps key) refl;
  refines = w;
}
call_lem alloc (checks key) s m a w = record {
  list = s;
  called = rw (contains_lem s w.height w.entries w.is_list key, ◌>>=◌, w.maps key) refl;
  refines = w;
}
call_lem alloc (deletes key) s m a w =
    let r = del_lem key s w.height w.entries w.is_list in
    record {
      list = r.0;
      called = rw (r.1, ◌>>=◌, w.maps key) refl;
      refines = record {
        height = r.2.height;
        entries = r.2.entries;
        is_list = r.2.is_list;
        maps = λ k. r.2.maps k ∙ ap (λ t. if bytes_eq key k then none else t) (w.maps k);
      };
    }
call_lem alloc clears s m a w =
    let r = clear_lem alloc s w.height w.entries w.is_list in
    record {
      list = init alloc r.heap;
      called = rw (r.cleared, ◌>>=◌) refl;
      refines = init-Refines alloc r.heap a;
    }

-- Any calls, in any order, return: they give the replies that a map gives, and leave a well-formed
-- list that holds what the map holds. The allocator is assumed to return addresses that are free.
pub run-Refines :
    (alloc : Heap → Ptr) (calls : List Call) (s : SkipList) (m : Map)
    → IsAllocator alloc
    → Refines s m
    → (s' : SkipList) × (run alloc calls s ≡ some ((map_run calls m).0, s'))
      × Refines s' ((map_run calls m).1)
unfolding run map_run
run-Refines alloc [] s m a w = (s, refl, w)
run-Refines alloc (c ∷ cs) s m a w =
    let step = call_lem alloc c s m a w in
    let rest = run-Refines alloc cs step.list ((map_call c m).1) a step.refines in
    (rest.0, rw (step.called, ◌>>=◌, rest.1, ◌>>=◌) refl, rest.2)
