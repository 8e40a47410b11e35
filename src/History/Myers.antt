-- ===== src/History/Myers.antt =====
-- history/differ.go, `myersDiff`: the shortest edit script by Myers' greedy algorithm.
pub mod Unchanged
pub mod Array
pub mod Moves
pub mod Sweep
pub mod Rounds
pub mod Frontier
pub mod Reach
pub mod Shortest
use vedox.Base.{
  ℕ, zero, suc, ◌+◌, ◌-◌, ◌*◌, bytes_eq, Bool, true, false, not, ◌&&◌, ◌||◌, Option, none, some,
  List, [], ◌∷◌, ◌++◌, ltb, leb, ◌==◌, if◌then◌else◌, is_empty, length,
}
use vedox.Base.Text.{Text}
use vedox.History.Blocks.{Block, split_blocks}
use vedox.History.Changes.{
  Change, EditOp, delete, insert, inserts_only, deletes_only, block_at, ops_to_changes,
}

-- The array `v`, whose indices are shifted by `max` and stay within it.
unfoldable pub read : List ℕ → ℕ → ℕ
read [] i = 0
read (x ∷ v) zero = x
read (x ∷ v) (suc i) = read v i

unfoldable pub write : List ℕ → ℕ → ℕ → List ℕ
write [] i y = []
write (x ∷ v) zero y = y ∷ v
write (x ∷ v) (suc i) y = x ∷ write v i y

unfoldable pub zeros : ℕ → List ℕ
zeros zero = []
zeros (suc n) = 0 ∷ zeros n

unfoldable pub same_raw : Option Block → Option Block → Bool
same_raw (some b) (some c) = bytes_eq b.raw c.raw
same_raw (some b) none = false
same_raw none c = false

-- The loop that skips equal blocks, from (x, y), for at most `fuel` steps: how many it takes. Its
-- guards `x < n` and `y < m` are those of `block_at`.
unfoldable pub snake : List Block → List Block → ℕ → ℕ → ℕ → ℕ
unfolding block_at same_raw
snake old new zero x y = 0
snake old new (suc fuel) x y =
    let more = snake old new fuel (suc x) (suc y) in
    if same_raw (block_at old x) (block_at new y) then suc more else 0

-- The choice between a move down and one to the right; `k` is shifted by `max`.
abbrev pub goes_down : List ℕ → ℕ → ℕ → ℕ → Bool
goes_down v max d k = (k + d == max) || not (k == max + d) && ltb (read v (k - 1)) (read v (k + 1))

-- The furthest point on a diagonal after the snake.
unfoldable pub furthest : List Block → List Block → List ℕ → ℕ → ℕ → ℕ → ℕ
unfolding read snake
furthest old new v max d k =
    let x = if goes_down v max d k then read v (k + 1) else read v (k - 1) + 1 in
    x + snake old new (length old) x (x + max - k)

-- The inner loop over `k`, `count` diagonals from `k` on in steps of two: the array, and whether
-- the end was reached.
unfoldable pub sweep : List Block → List Block → ℕ → ℕ → ℕ → ℕ → List ℕ → List ℕ × Bool
unfolding furthest write
sweep old new max d zero k v = (v, false)
sweep old new max d (suc count) k v =
    let x = furthest old new v max d k in
    let v' = write v k x in
    let more = sweep old new max d count (k + 2) v' in
    if leb (length old) x && leb (length new) (x + max - k) then (v', true) else more

-- The outer loop over `d`, from `d` on for at most `fuel` rounds: the snapshots, the last one
-- first, and the last `d`.
unfoldable pub forward :
    List Block → List Block → ℕ → ℕ → ℕ → List ℕ → List (List ℕ) → List (List ℕ) × ℕ
unfolding sweep
forward old new max zero d v trace = (trace, 0)
forward old new max (suc fuel) d v trace =
    let (v', found) = sweep old new max d (suc d) (max - d) v in
    elim found [ true ↦ (v' ∷ trace, d) | false ↦ forward old new max fuel (suc d) v' (v' ∷ trace) ]

-- The back-trace from (x, y) at step `d`, over the snapshots of the steps before `d`, the last
-- one first; it puts each operation in front of those behind it.
unfoldable pub back_trace : ℕ → ℕ → ℕ → ℕ → List (List ℕ) → List EditOp → List EditOp
unfolding read
back_trace max zero x y trace ops = ops
back_trace max (suc d) x y [] ops = ops
back_trace max (suc d) x y (prev ∷ trace) ops =
    let k = x + max - y in
    if goes_down prev max (suc d) k
    then (let px = read prev (k + 1) in
        let py = px + max - (k + 1) in back_trace max d px py trace (insert py ∷ ops))
    else (let px = read prev (k - 1) in
        let py = px + max - (k - 1) in back_trace max d px py trace (delete px ∷ ops))

abbrev behind : List (List ℕ) → List (List ℕ)
behind [] = []
behind (last ∷ trace) = trace

-- The shortest edit script of two documents with blocks.
unfoldable pub edit_script : List Block → List Block → List EditOp
unfolding forward back_trace zeros
edit_script old new =
    let max = length old + length new in
    let (trace, d) = forward old new max (suc max) 0 (zeros (2 * max + 2)) [] in
    back_trace max d (length old) (length new) (behind trace) []

-- `myersDiff`
unfoldable pub myers_diff : List Block → List Block → Option (List Change)
unfolding edit_script inserts_only deletes_only
myers_diff old new =
    if is_empty old && is_empty new
    then some []
    else if is_empty old
    then some (inserts_only new)
    else if is_empty new
    then some (deletes_only old)
    else ops_to_changes (edit_script old new) old new

-- `DiffDocs`
unfoldable pub diff_docs : Text → Text → Option (List Change)
unfolding split_blocks myers_diff
diff_docs old_content new_content = myers_diff (split_blocks old_content) (split_blocks new_content)
