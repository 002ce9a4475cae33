-- ===== src/Channel/Queue.antt =====
-- The channel of micromachine/utils/blocking_queue.hpp as a bounded queue: its bytes in order.
use micromachine.Base.{
  ℕ, zero, suc, ◌+◌, ◌-◌, ◌%◌, ◌^◌, ◌≤◌, ◌<◌, ◌≡◌, ◌≢◌, ◌⊎◌, inl, inr, refl, sym, ap, ap₂, arith,
  ◌∙◌, false, ◌==◌, if◌then◌else◌, List, [], ◌∷◌, ◌++◌, Option, none, some, update, length, subst,
}
use micromachine.Channel.{
  Channel, ChannelResult, success, capacity, size, full, empty, next, write, overwrite, read,
  force_push, push, clear, pop,
}

-- The abstract queue and its operations.
abbrev pub drop_oldest : List ℕ → List ℕ
drop_oldest [] = []
drop_oldest (x ∷ xs) = xs

unfoldable pub bounded_push : ℕ → List ℕ → List ℕ
bounded_push value xs =
    if length xs == capacity then drop_oldest xs ++ value ∷ [] else xs ++ value ∷ []

-- `n` bytes of the array from index `i` on.
unfoldable pub contents_from : (ℕ → ℕ) → ℕ → ℕ → List ℕ
unfolding next
contents_from array zero i = []
contents_from array (suc n) i = array (i % capacity) ∷ contents_from array n (next i)

unfoldable pub contents : Channel → List ℕ
unfolding contents_from size
contents q = contents_from q.array (size q) q.tail

-- The indexes are 64-bit numbers, at most 1024 apart.
unfoldable pub IsChannel : Channel → Type 0
unfolding size
IsChannel q = (q.head < 2 ^ 64) × (q.tail < 2 ^ 64) × (size q ≤ capacity)

length-contents_from : (a : ℕ → ℕ) (n i : ℕ) → length (contents_from a n i) ≡ n
unfolding contents_from
length-contents_from a zero i = refl
length-contents_from a (suc n) i = ap suc (length-contents_from a n (next i))

update_other : (a : ℕ → ℕ) (i j v : ℕ) → i ≢ j → update a i v j ≡ a j
update_other a i j v ne = grind arith

update_same : (a : ℕ → ℕ) (i v : ℕ) → update a i v i ≡ v
update_same a i v = ground arith

-- A byte that is written behind `n` bytes is appended to them.
appended :
    (a : ℕ → ℕ) (v h n i : ℕ)
    → h < 2 ^ 64
    → i < 2 ^ 64
    → n < capacity
    → (h + 2 ^ 64 - i) % 2 ^ 64 ≡ n
    → contents_from (update a (h % capacity) v) (suc n) i ≡ contents_from a n i ++ v ∷ []
unfolding contents_from next
appended a v h zero i hh hi le e =
    ap (λ (t : ℕ). t ∷ [])
      (ap (λ (k : ℕ). update a (h % capacity) v (k % capacity)) {x = i} {y = h} (omega arith)
        ∙ update_same a (h % capacity) v)
appended a v h (suc n) i hh hi le e =
    ap₂ (λ (t : ℕ) (ts : List ℕ). t ∷ ts)
      (update_other a (h % capacity) (i % capacity) v (omega arith))
      (appended a v h n (next i) hh (omega arith) (omega arith) (omega arith))

module _ (value : ℕ) (q : Channel) (ok : IsChannel q) where
  contents-write : size q < capacity → contents (write value q) ≡ contents q ++ value ∷ []
  unfolding contents size write IsChannel next
  contents-write room =
      ap (λ (n : ℕ). contents_from (update q.array (q.head % capacity) value) n q.tail)
        {x = size (write value q)} {y = suc (size q)} (omega (arith, ok))
      ∙ appended q.array value q.head (size q) q.tail ok.0 ok.1 room refl

  contents-overwrite :
      size q ≡ capacity → contents (overwrite value q) ≡ drop_oldest (contents q) ++ value ∷ []
  unfolding contents contents_from size overwrite IsChannel next
  contents-overwrite is_full =
      ap (λ (n : ℕ). contents_from (update q.array (q.head % capacity) value) n (next q.tail))
        {x = size (overwrite value q)} {y = suc 1023} (omega (arith, ok))
      ∙ (appended q.array value q.head 1023 (next q.tail) ok.0 (omega (arith, ok)) (omega arith)
            (omega (arith, ok, is_full))
          ∙ ap (λ (n : ℕ). drop_oldest (contents_from q.array n q.tail) ++ value ∷ [])
              (sym is_full))

  write-IsChannel : size q < capacity → IsChannel (write value q)
  unfolding IsChannel size write next
  write-IsChannel room = (omega arith, ok.1, omega (arith, ok))

  overwrite-IsChannel : size q ≡ capacity → IsChannel (overwrite value q)
  unfolding IsChannel size overwrite next
  overwrite-IsChannel is_full = (omega arith, omega arith, omega (arith, ok))

  pub length-contents : length (contents q) ≡ size q
  unfolding contents
  length-contents = length-contents_from q.array (size q) q.tail

full_or_not : (q : Channel) → size q ≤ capacity → (size q ≡ capacity) ⊎ (size q < capacity)
full_or_not q h = ground arith

module _ (value : ℕ) (q : Channel) (running : q.aborted ≡ false) where
  forces_full : size q ≡ capacity → force_push value q ≡ (success, overwrite value q)
  unfolding force_push full
  forces_full e = ground arith

  forces_room : size q < capacity → force_push value q ≡ (success, write value q)
  unfolding force_push full
  forces_room e = ground arith

  pops_none : q.head ≡ q.tail → pop q ≡ none
  unfolding pop empty
  pops_none e = ground arith

  pops_some : q.head ≢ q.tail → pop q ≡ some (success, some (read q).0, (read q).1)
  unfolding pop empty
  pops_some e = ground arith

spec_full :
    (value : ℕ) (xs : List ℕ)
    → length xs ≡ capacity
    → bounded_push value xs ≡ drop_oldest xs ++ value ∷ []
unfolding bounded_push
spec_full value xs e = ground arith

spec_room :
    (value : ℕ) (xs : List ℕ) → length xs < capacity → bounded_push value xs ≡ xs ++ value ∷ []
unfolding bounded_push
spec_room value xs e = ground arith

-- What `force_push_lem` says of a result.
Pushed : ℕ → Channel → ChannelResult × Channel → Type 0
Pushed value q r =
    (r.0 ≡ success) × (contents r.1 ≡ bounded_push value (contents q)) × IsChannel r.1

-- A byte that is forced into a channel that is not aborted is put behind the others, the oldest
-- making room in a full one, and the channel stays well formed.
pub force_push_lem :
    (value : ℕ) (q : Channel)
    → IsChannel q
    → q.aborted ≡ false
    → ((force_push value q).0 ≡ success)
      × (contents (force_push value q).1 ≡ bounded_push value (contents q))
      × IsChannel (force_push value q).1
unfolding IsChannel Pushed
force_push_lem value q ok running = elim (full_or_not q ok.2) [
  | inl is_full ↦ subst (Pushed value q) (sym (forces_full value q running is_full)) (
    refl,
    contents-overwrite value q ok is_full
        ∙ sym (spec_full value (contents q) (length-contents value q ok ∙ is_full)),
    overwrite-IsChannel value q ok is_full,
  )
  | inr room ↦ subst (Pushed value q) (sym (forces_room value q running room)) (
    refl,
    contents-write value q ok room
        ∙ sym (spec_room value (contents q) (omega (arith, length-contents value q ok))),
    write-IsChannel value q ok room,
  )
]

head_eq : (x y : ℕ) (xs ys : List ℕ) → Path (List ℕ) (x ∷ xs) (y ∷ ys) → x ≡ y
head_eq x y xs ys e = cc

tail_eq : (x y : ℕ) (xs ys : List ℕ) → Path (List ℕ) (x ∷ xs) (y ∷ ys) → xs ≡ ys
tail_eq x y xs ys e = cc

-- The first byte of what a channel holds, and the others.
contents-read :
    (q : Channel) (n : ℕ)
    → IsChannel q
    → size q ≡ suc n
    → (contents q ≡ (read q).0 ∷ contents (read q).1) × IsChannel (read q).1 × (q.head ≢ q.tail)
unfolding contents contents_from size read IsChannel next
contents-read q n ok e = (
  ap (λ (k : ℕ). contents_from q.array k q.tail) e
      ∙ ap (λ (k : ℕ). q.array (q.tail % capacity) ∷ contents_from q.array k (next q.tail)) {x = n}
          {y = size (read q).1} (omega (arith, ok)),
  (ok.0, omega arith, omega (arith, ok)),
  λ same. absurd (omega (arith, ok)),
)

size_cases : (n : ℕ) → (n ≡ 0) ⊎ ((k : ℕ) × (n ≡ suc k))
size_cases zero = inl refl
size_cases (suc n) = inr (n, refl)

-- What `pop` gives for the bytes of the channel before it.
unfoldable pub Popped : List ℕ → Option (ChannelResult × Option ℕ × Channel) → Type 0
Popped [] r = r ≡ none
Popped (x ∷ xs) r =
    (q' : Channel) × (r ≡ some (success, some x, q')) × (contents q' ≡ xs) × IsChannel q'

pop_cases :
    (q : Channel)
    → IsChannel q
    → q.aborted ≡ false
    → ((contents q ≡ []) → pop q ≡ none)
      × ((x : ℕ) (xs : List ℕ)
          → contents q ≡ x ∷ xs
          → (q' : Channel) × (pop q ≡ some (success, some x, q'))
            × (contents q' ≡ xs)
            × IsChannel q')
unfolding IsChannel size
pop_cases q ok running = (
  λ e. pops_none 0 q running (omega (arith, ok, sym (length-contents 0 q ok) ∙ ap length e)),
  λ x xs e. taken x xs e (size_cases (size q)),
)
  where
    taken :
        (x : ℕ) (xs : List ℕ)
        → contents q ≡ x ∷ xs
        → (size q ≡ 0) ⊎ ((k : ℕ) × (size q ≡ suc k))
        → (q' : Channel) × (pop q ≡ some (success, some x, q')) × (contents q' ≡ xs) × IsChannel q'
    taken x xs e (inl z) = absurd (omega (arith, z, length-contents 0 q ok, ap length e))
    taken x xs e (inr (k, s)) =
        let r = contents-read q k ok s in
        let same = sym r.0 ∙ e in
        (
          (read q).1,
          pops_some 0 q running r.2
              ∙ ap (λ (t : ℕ). some (success, some t, (read q).1))
                  (head_eq (read q).0 x (contents (read q).1) xs same),
          tail_eq (read q).0 x (contents (read q).1) xs same,
          r.1,
        )

pop-Popped_of :
    (q : Channel) (bytes : List ℕ)
    → IsChannel q
    → q.aborted ≡ false
    → contents q ≡ bytes
    → Popped bytes (pop q)
unfolding Popped
pop-Popped_of q [] ok running e = (pop_cases q ok running).0 e
pop-Popped_of q (x ∷ xs) ok running e = (pop_cases q ok running).1 x xs e

-- The oldest byte of a channel that is not aborted is taken by `pop`, which would wait on an empty
-- one.
pub pop_lem : (q : Channel) → IsChannel q → q.aborted ≡ false → Popped (contents q) (pop q)
pop_lem q ok running = pop-Popped_of q (contents q) ok running refl

-- `push` puts a byte behind the others when there is room and would wait when there is none, in a
-- channel that is not aborted.
push_lem :
    (value : ℕ) (q : Channel)
    → IsChannel q
    → q.aborted ≡ false
    → (size q ≡ capacity → push value q ≡ none)
      × (size q < capacity
          → (q' : Channel) × (push value q ≡ some (success, q'))
            × (contents q' ≡ contents q ++ value ∷ [])
            × IsChannel q')
unfolding push full
push_lem value q ok running = (
  λ is_full. ground arith,
  λ room. (
    write value q,
    ground arith,
    contents-write value q ok room,
    write-IsChannel value q ok room,
  ),
)

-- `clear` forgets all bytes.
clear_lem : (q : Channel) → (contents (clear q) ≡ []) × IsChannel (clear q)
unfolding clear contents contents_from size IsChannel
clear_lem q = (refl, (omega arith, omega arith, omega arith))
