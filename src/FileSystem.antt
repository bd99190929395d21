-- ===== src/FileSystem.antt =====
-- The part of Go's `os` and `io` that the node's commands call, over an explicit tree of files.
-- A schedule of faults says which system calls fail: a call takes the next entry of the schedule,
-- and succeeds where that is `none` or the schedule has ended. A call that fails has changed
-- nothing, except a write, which may have written some bytes.
mod Paths
pub mod Laws
pub mod Quiet
pub mod Preserves
pub mod Frame
pub mod Calm
pub mod Unique
pub mod Entries
pub mod Way
pub mod Leads
unfoldable pub use Paths.*
use csi_hostpath.Base.{
  ℕ, String, Bool, true, false, Option, none, some, List, [], ◌∷◌, ◌++◌, Text, text, length, take,
  drop, Outcome, ok, err, Exec, pure, fail, ◌>>=◌, ◌>>◌, attempt, ◌==◌, nat_eq, list_eq, has_prefix,
  if◌then◌else◌,
}
use csi_hostpath.Base.Dict.{Dict, lookup, insert}

pub data Node : Type 0 where
  dir : Node
  file : Text → Node

abbrev pub Files : Type 0
Files = Dict FilePath Node

pub record Fault : Type 0 where
  pub reason : Text
  pub written : ℕ

pub record World : Type 0 where
  pub files : Files
  pub faults : List (Option Fault)

-- A world in which no system call fails.
abbrev pub quiet : Files → World
quiet d = record { files = d; faults = [] }

-- A system call fails with the text of its error.
abbrev pub Os : Type 0 → Type 0
Os A = Exec World Text A

abbrev pub find : FilePath → World → Option Node
find p w = lookup p w.files

abbrev pub put : FilePath → Node → World → World
put p n w = record w { files = insert p n w.files }

unfoldable pub erase_below : FilePath → Files → Files
erase_below p [] = []
erase_below p ((k, n) ∷ d) =
    let rest = erase_below p d in if has_prefix p k then rest else (k, n) ∷ rest

abbrev pub path_error : String → Text → String → Text
path_error op p reason = text op ++ (text " " ++ (p ++ (text ": " ++ text reason)))

abbrev pub fault_error : String → Text → Fault → Text
fault_error op p f = text op ++ (text " " ++ (p ++ (text ": " ++ f.reason)))

module _ {A : Type 0} where
  abbrev take_fault : List (Option Fault) → (Fault → Os A) → Os A → Os A
  take_fault [] bad good w = good w
  take_fault (none ∷ fs) bad good w = good (record w { faults = fs })
  take_fault (some f ∷ fs) bad good w = bad f (record w { faults = fs })

  unfoldable pub system_call : (Fault → Os A) → Os A → Os A
  system_call bad good w = take_fault w.faults bad good w

abbrev opened : Text → Option Node → Os (Unit {0})
opened p none = fail (path_error "open" p "no such file or directory")
opened p (some n) = pure tt

-- `os.Open`
unfoldable pub os_open : Text → Os (Unit {0})
unfolding system_call
os_open p =
    system_call (λ f. fail (fault_error "open" p f)) (λ w. opened p (find (components p) w) w)

abbrev bytes_of : Text → Option Node → Os Text
bytes_of p (some (file b)) = pure b
bytes_of p (some dir) = fail (path_error "read" p "is a directory")
bytes_of p none = fail (path_error "read" p "file already closed")

-- `io.ReadAll` on what `os.Open` has opened at `p`
unfoldable pub read_all : Text → Os Text
unfolding system_call
read_all p =
    system_call (λ f. fail (fault_error "read" p f)) (λ w. bytes_of p (find (components p) w) w)

-- A directory's entries: the paths that are longer by one component.
abbrev child_name : FilePath → FilePath → Option Text
child_name [] (x ∷ []) = some x
child_name [] _ = none
child_name (c ∷ p) [] = none
child_name (c ∷ p) (x ∷ k) = let deeper = child_name p k in if c == x then deeper else none

abbrev add_child : Option Text → Node → List (Text × Node) → List (Text × Node)
add_child none n rest = rest
add_child (some x) n rest = (x, n) ∷ rest

unfoldable pub children : FilePath → Files → List (Text × Node)
children p [] = []
children p ((k, n) ∷ d) = add_child (child_name p k) n (children p d)

abbrev entries_of : Text → Option Node → Os (List (Text × Node))
entries_of p (some dir) = λ w. pure (children (components p) w.files) w
entries_of p _ = fail (path_error "readdirent" p "not a directory")

-- `f.ReadDir(-1)`. The order of the entries is that in which they were made.
unfoldable pub read_dir : Text → Os (List (Text × Node))
unfolding system_call
read_dir p =
    system_call (λ f. fail (fault_error "readdirent" p f))
      (λ w. entries_of p (find (components p) w) w)

abbrev pub make_one : Text → FilePath → Option Node → Os (Unit {0})
make_one t p (some dir) = pure tt
make_one t p (some (file b)) = fail (path_error "mkdir" t "not a directory")
make_one t p none = system_call (λ f. fail (fault_error "mkdir" t f)) (λ w. pure tt (put p dir w))

-- `os.MkdirAll`: one call of mkdir for each directory that is missing, the outermost first.
unfoldable pub mkdir_from : Text → FilePath → FilePath → Os (Unit {0})
unfolding system_call
mkdir_from t above [] = pure tt
mkdir_from t above (c ∷ cs) = do
  λ w. make_one t (above ++ (c ∷ [])) (find (above ++ (c ∷ [])) w) w
  mkdir_from t (above ++ (c ∷ [])) cs

unfoldable pub mkdir_all : Text → Os (Unit {0})
unfolding mkdir_from
mkdir_all t = mkdir_from t [] (components t)

unfoldable pub parent : FilePath → FilePath
parent [] = []
parent (c ∷ []) = []
parent (c ∷ d ∷ p) = c ∷ parent (d ∷ p)

abbrev create_in : Text → FilePath → Option Node → Os (Unit {0})
create_in t p (some dir) = λ w. pure tt (put p (file []) w)
create_in t p _ = fail (path_error "open" t "no such file or directory")

abbrev open_existing : Text → FilePath → Bool → Option Node → Os (Unit {0})
open_existing t p trunc (some dir) = fail (path_error "open" t "is a directory")
open_existing t p true (some (file b)) = λ w. pure tt (put p (file []) w)
open_existing t p false (some (file b)) = pure tt
open_existing t p trunc none = λ w. create_in t p (find (parent p) w) w

-- `os.OpenFile` with O_RDWR | O_CREATE, and O_TRUNC where `trunc` says so
unfoldable pub open_file : Text → Bool → Os (Unit {0})
unfolding system_call parent
open_file t trunc =
    system_call (λ f. fail (fault_error "open" t f))
      (λ w. open_existing t (components t) trunc (find (components t) w) w)

-- The bytes of a file after a write at its beginning: what the write does not reach stays.
unfoldable pub overlay : Text → Text → Text
overlay new old = new ++ drop (length new) old

abbrev write_over : FilePath → Text → Option Node → World → World
write_over p b (some (file old)) w = put p (file (overlay b old)) w
write_over p b _ w = w

-- `io.WriteString` at the beginning of a file that has just been opened at `t`
unfoldable pub write_string : Text → Text → Os (Unit {0})
unfolding system_call overlay
write_string t b =
    system_call
      (λ f w.
        fail (fault_error "write" t f)
          (write_over (components t) (take f.written b) (find (components t) w) w))
      (λ w. pure tt (write_over (components t) b (find (components t) w) w))

abbrev is_empty : List (Text × Node) → Bool
is_empty [] = true
is_empty (x ∷ xs) = false

abbrev remove_found : Text → Option Node → Os (Unit {0})
remove_found t none = fail (path_error "remove" t "no such file or directory")
remove_found t (some (file b)) =
    λ w. pure tt (record w { files = erase_below (components t) w.files })
remove_found t (some dir) = λ w.
    if is_empty (children (components t) w.files)
    then pure tt (record w { files = erase_below (components t) w.files })
    else fail (path_error "remove" t "directory not empty") w

-- `os.Remove`
unfoldable pub os_remove : Text → Os (Unit {0})
unfolding system_call erase_below children
os_remove t =
    system_call (λ f. fail (fault_error "remove" t f))
      (λ w. remove_found t (find (components t) w) w)

-- `os.RemoveAll`, of which a call that fails removes nothing
unfoldable pub remove_all : Text → Os (Unit {0})
unfolding system_call erase_below
remove_all t =
    system_call (λ f. fail (fault_error "unlinkat" t f))
      (λ w. pure tt (record w { files = erase_below (components t) w.files }))

abbrev is_some : Option Node → Bool
is_some none = false
is_some (some n) = true

-- `_, err := os.Stat(t); !os.IsNotExist(err)`: any other error counts as existing.
unfoldable pub exists : Text → Os Bool
unfolding system_call
exists t = system_call (λ f. pure true) (λ w. pure (is_some (find (components t) w)) w)
