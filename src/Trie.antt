-- ===== src/Trie.antt =====
-- include/lockfree/atomic_trie.hpp: `AtomicTrie<CharType>`, each operation run without interference. A
-- character is its number as an unsigned value of `CharType`, a word is a list of them. A failed
-- compare-exchange on a child pointer is tried again until it succeeds (the `continue` passes over
-- the attempt counter), so its outcomes leave no trace and are left out.

pub mod Words
pub mod Tidy
pub mod Prefix
pub mod Iterator
pub mod Listing
pub mod Suffixes
pub mod Visit
pub mod Longest
mod Examples
use cpp_lockfree_structures.Prelude.{
  ℕ, zero, suc, ◌+◌, ◌-◌, ◌%◌, Bool, true, false, not, ◌&&◌, ◌||◌, List, [], ◌∷◌, ◌++◌, is_nil,
  length, ◌==◌, if◌then◌else◌, add64, sub64, update,
}

-- A pointer to a node.
pub data TrieNode : Type 0 where
  null : TrieNode
  node : (is_end_of_word deleted : Bool) (children : ℕ → TrieNode) → TrieNode

pub record Trie : Type 0 where
  pub root : TrieNode
  pub count : ℕ

abbrev pub alphabet_size : ℕ
alphabet_size = 256

-- `static_cast<unsigned char>`.
abbrev pub char_to_index : ℕ → ℕ
char_to_index c = c % alphabet_size

pub new_node : TrieNode
new_node = node false false (λ i. null)

pub init : Trie
init = record { root = new_node; count = 0 }

-- The loop of `insert_recursive`: a child that is missing or deleted is replaced.
pub valid_child : TrieNode → TrieNode
valid_child null = new_node
valid_child (node e d ch) = if d then new_node else node e d ch

pub insert_recursive : List ℕ → TrieNode → Bool × TrieNode
insert_recursive w null = (false, null)
insert_recursive [] (node e d ch) = if d then (false, node e d ch) else (not e, node true d ch)
insert_recursive (c ∷ w) (node e d ch) =
    let r = insert_recursive w (valid_child (ch (char_to_index c))) in
    if d then (false, node e d ch) else (r.0, node e d (update ch (char_to_index c) r.1))

-- `insert` and `emplace`.
pub insert : List ℕ → Trie → Bool × Trie
insert w t =
    let r = insert_recursive w t.root in
    if is_nil w
    then (false, t)
    else (r.0, record { root = r.1; count = if r.0 then add64 t.count 1 else t.count })

pub contains_recursive : List ℕ → TrieNode → Bool
contains_recursive w null = false
contains_recursive [] (node e d ch) = if d then false else e
contains_recursive (c ∷ w) (node e d ch) =
    let below = contains_recursive w (ch (char_to_index c)) in if d then false else below

pub contains : List ℕ → Trie → Bool
contains w t = if is_nil w then false else contains_recursive w t.root

pub is_live : TrieNode → Bool
is_live null = false
is_live (node e d ch) = not d

-- The loop of `has_children`: `n` children from `i` on.
pub has_children_loop : ℕ → ℕ → (ℕ → TrieNode) → Bool
has_children_loop zero i ch = false
has_children_loop (suc n) i ch =
    let later = has_children_loop n (suc i) ch in if is_live (ch i) then true else later

pub has_children : (ℕ → TrieNode) → Bool
has_children ch = has_children_loop alphabet_size 0 ch

-- `cleanup_node_if_possible`: what the parent's pointer to the child is afterwards.
pub cleanup_node : TrieNode → TrieNode
cleanup_node null = null
cleanup_node (node e d ch) = if e || has_children ch || d then node e d ch else null

pub erase_recursive : List ℕ → TrieNode → Bool × TrieNode
erase_recursive w null = (false, null)
erase_recursive [] (node e d ch) = if d then (false, node e d ch) else (e, node false d ch)
erase_recursive (c ∷ w) (node e d ch) =
    let r = erase_recursive w (ch (char_to_index c)) in
    if d
    then (false, node e d ch)
    else if r.0
    then (true, node e d (update ch (char_to_index c) (cleanup_node r.1)))
    else (false, node e d (update ch (char_to_index c) r.1))

pub erase : List ℕ → Trie → Bool × Trie
erase w t =
    let r = erase_recursive w t.root in
    if is_nil w
    then (false, t)
    else (r.0, record { root = r.1; count = if r.0 then sub64 t.count 1 else t.count })

-- The loop of `starts_with`.
pub starts_with_loop : List ℕ → TrieNode → Bool
starts_with_loop p null = false
starts_with_loop [] (node e d ch) = not d
starts_with_loop (c ∷ p) (node e d ch) =
    let below = starts_with_loop p (ch (char_to_index c)) in if d then false else below

pub starts_with : List ℕ → Trie → Bool
starts_with p t = if is_nil p then false else starts_with_loop p t.root

pub empty : Trie → Bool
empty t = t.count == 0

pub size : Trie → ℕ
size t = t.count

-- `index_to_char`.
abbrev pub index_to_char : ℕ → ℕ
index_to_char i = i

-- The loop of `collect_words_with_prefix` over `n` children from `i` on, given which are there and not
-- deleted, and what the calls for them add.
pub collect_children : ℕ → ℕ → (ℕ → Bool) → (ℕ → List ℕ → List (List ℕ)) → List ℕ → List (List ℕ)
collect_children zero i live below current_word = []
collect_children (suc n) i live below current_word =
    let later = collect_children n (suc i) live below current_word in
    if live i then below i (current_word ++ index_to_char i ∷ []) ++ later else later

-- `collect_words_with_prefix`: what it adds to `result`.
pub collect_words : TrieNode → List ℕ → List (List ℕ)
collect_words null current_word = []
collect_words (node e d ch) current_word =
    let below =
      collect_children alphabet_size 0 (λ i. is_live (ch i)) (λ i. collect_words (ch i))
        current_word in
    if d then [] else (if e then current_word ∷ below else below)

-- The loop that goes to the prefix node: null where the prefix does not exist.
pub prefix_node : List ℕ → TrieNode → TrieNode
prefix_node p null = null
prefix_node [] (node e d ch) = if d then null else node e d ch
prefix_node (c ∷ p) (node e d ch) =
    let below = prefix_node p (ch (char_to_index c)) in if d then null else below

pub get_all_with_prefix : List ℕ → Trie → List (List ℕ)
get_all_with_prefix p t = if is_nil p then [] else collect_words (prefix_node p t.root) p

pub count_with_prefix : List ℕ → Trie → ℕ
count_with_prefix p t = length (get_all_with_prefix p t)

-- The loop of `longest_prefix`, with the characters that are left and those that are done.
pub longest_loop : List ℕ → List ℕ → TrieNode → List ℕ → List ℕ
longest_loop w done null result = result
longest_loop [] done (node e d ch) result = if not d && e then done else result
longest_loop (c ∷ w) done (node e d ch) result =
    let further =
      longest_loop w (done ++ c ∷ []) (ch (char_to_index c)) (if e then done else result) in
    if d then result else further

pub longest_prefix : List ℕ → Trie → List ℕ
longest_prefix word t = longest_loop word [] t.root []
