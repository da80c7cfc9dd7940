-- ===== src/Poll/Cells.antt =====
-- RuruLoop.cpp, `EpollWait`: the objects that epoll's pointers lead to, before the events and behind them.
use ruru.Base.{
  ℕ, zero, suc, ◌<◌, ◌≡◌, ◌≢◌, sym, List, [], ◌∷◌, ◌++◌, Option, none, some, arith, get_elem?,
  length, ◌==◌, if◌then◌else◌,
}
use ruru.Poll.{Ready, Cell, Descriptors, is_lost}

pub get_elem?-append :
    {A : Type 0} (xs ys : List A) (i : ℕ) (a : A)
    → get_elem? xs i ≡ some a
    → get_elem? (xs ++ ys) i ≡ some a
get_elem?-append [] ys i a h = cc
get_elem?-append (x ∷ xs) ys zero a h = h
get_elem?-append (x ∷ xs) ys (suc i) a h = get_elem?-append xs ys i a h

pub get_elem?-lt :
    {A : Type 0} (xs : List A) (i : ℕ) (a : A) → get_elem? xs i ≡ some a → i < length xs
get_elem?-lt [] i a h = cc
get_elem?-lt (x ∷ xs) zero a h = omega arith
get_elem?-lt (x ∷ xs) (suc i) a h = omega (arith, get_elem?-lt xs i a h)

-- What a pointer leads to behind its event: the sockets of the loop stay, a lost connection is
-- deleted, and so is one that has been served.
abbrev pub outcome : Descriptors → Ready → Cell → Option Cell
outcome fds e cell =
    if is_lost e
    then none
    else if cell.fd == fds.udpfd
    then some cell
    else if cell.fd == fds.tcpfd
    then some cell
    else none

-- No event of the list has the pointer.
abbrev pub Absent : ℕ → List Ready → Type 0
Absent q [] = Unit
Absent q (e ∷ es) = (q ≢ e.ptr) × Absent q es

-- The pointers of the events are different, and lead to objects.
abbrev pub Live : List Ready → List (Option Cell) → Type 0
Live [] cells = Unit
Live (e ∷ es) cells =
    ((cell : Cell) × (get_elem? cells e.ptr ≡ some (some cell))) × Absent e.ptr es × Live es cells

-- Each event's pointer has had its outcome.
abbrev pub Settled : Descriptors → List Ready → List (Option Cell) → List (Option Cell) → Type 0
Settled fds [] before after = Unit
Settled fds (e ∷ es) before after =
    ((cell : Cell)
      → get_elem? before e.ptr ≡ some (some cell)
      → get_elem? after e.ptr ≡ some (outcome fds e cell))
    × Settled fds es before after

-- Objects that are there stay as they are, but for those that the events point to.
abbrev pub Spared : List Ready → List (Option Cell) → List (Option Cell) → Type 0
Spared es before after =
    (q : ℕ) (x : Option Cell)
    → Absent q es
    → get_elem? before q ≡ some x
    → get_elem? after q ≡ some x

-- One event leaves the others' pointers alone.
pub Live-others :
    (e : Ready) (es : List Ready) (before after : List (Option Cell))
    → Absent e.ptr es
    → Spared (e ∷ []) before after
    → Live es before
    → Live es after
Live-others e [] before after ab sp live = tt
Live-others e (f ∷ es) before after (ne, ab) sp ((cell, at), rest, live) = (
  (cell, sp f.ptr (some cell) ((λ s. ne (sym s)), tt) at),
  rest,
  Live-others e es before after ab sp live,
)

pub Settled-others :
    (e : Ready) (fds : Descriptors) (es : List Ready) (before middle after : List (Option Cell))
    → Absent e.ptr es
    → Spared (e ∷ []) before middle
    → Settled fds es middle after
    → Settled fds es before after
Settled-others e fds [] before middle after ab sp s = tt
Settled-others e fds (f ∷ es) before middle after (ne, ab) sp (own, s) = (
  (λ cell at. own cell (sp f.ptr (some cell) ((λ s. ne (sym s)), tt) at)),
  Settled-others e fds es before middle after ab sp s,
)
