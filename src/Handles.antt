-- ===== src/Handles.antt =====
-- LibOS/shim/src/bookkeep/shim_handle.c: the table of file descriptors.
pub mod Table
pub mod Detach
pub mod Grow
pub mod Fill
pub mod Install
pub mod Wrap
pub mod Walk
pub mod Stray
mod Tests
use graphene.Base.{
  ℕ, suc, zero, ◌+◌, ◌-◌, ◌*◌, ◌%◌, ◌^◌, Bool, true, false, not, ◌&&◌, ◌||◌, Option, none, some,
  List, [], ◌∷◌, ◌++◌, ltb, leb, ◌==◌, if◌then◌else◌, length, set, get_or, get_elem?, take,
  replicate, Errno, ebadf, emfile, enomem,
}

-- `struct shim_fd_handle`; the number is missing where the field is FD_NULL, and a handle is its
-- address.
pub record FdHandle : Type 0 where
  pub vfd : Option ℕ
  pub flags : ℕ
  pub handle : ℕ

-- `struct shim_handle_map`, less its lock and its reference count.
pub record HandleMap : Type 0 where
  pub fd_size : ℕ
  pub fd_top : Option ℕ
  pub slots : List (Option FdHandle)

-- The counts of the handles.
abbrev pub Counts : Type 0
Counts = ℕ → ℕ

-- `get_handle`, and the part of `put_handle` that counts.
abbrev pub get_handle : ℕ → Counts → Counts
get_handle hdl counts = λ h. if h == hdl then counts h + 1 else counts h

abbrev pub put_handle : ℕ → Counts → Counts
put_handle hdl counts = λ h. if h == hdl then counts h - 1 else counts h

-- `HANDLE_ALLOCATED`
abbrev pub handle_allocated : Option FdHandle → Bool
handle_allocated none = false
handle_allocated (some f) = elim f.vfd [ none ↦ false | some n ↦ true ]

-- An element of the array.
abbrev pub slot : HandleMap → ℕ → Option FdHandle
slot m fd = get_or m.slots fd none

-- `map->fd_top != FD_NULL && fd <= map->fd_top`
abbrev pub under_top : ℕ → Option ℕ → Bool
under_top fd none = false
under_top fd (some top) = leb fd top

-- What `__get_fd_handle` reads from an element: the handle and the flags.
abbrev pub fd_entry : Option FdHandle → Option (ℕ × ℕ)
fd_entry none = none
fd_entry (some f) = elim f.vfd [ none ↦ none | some n ↦ some (f.handle, f.flags) ]

-- `__get_fd_handle`, and `get_fd_handle`, which also takes a reference.
unfoldable pub get_fd_entry : ℕ → HandleMap → Option (ℕ × ℕ)
get_fd_entry fd m = if under_top fd m.fd_top then fd_entry (slot m fd) else none

unfoldable pub get_fd_handle : ℕ → HandleMap → Counts → Option (ℕ × ℕ) × Counts
unfolding get_fd_entry
get_fd_handle fd m counts = elim (get_fd_entry fd m) [
  | none ↦ (none, counts)
  | some found ↦ (some found, get_handle found.0 counts)
]

-- The loop of `__detach_fd_handle`: the highest descriptor in use below a number.
unfoldable pub lower_top : List (Option FdHandle) → ℕ → Option ℕ
lower_top slots zero = none
lower_top slots (suc vfd) =
    let rest = lower_top slots vfd in
    if handle_allocated (get_or slots vfd none) then some vfd else rest

abbrev pub is_top : ℕ → Option ℕ → Bool
is_top vfd none = false
is_top vfd (some top) = vfd == top

abbrev pub cleared : Option FdHandle
cleared = some (record { vfd = none; flags = 0; handle = 0 })

-- `__detach_fd_handle` of an element of the array, which the caller found at `fd`.
unfoldable pub detach_slot : ℕ → Option FdHandle → HandleMap → Option (ℕ × ℕ) × HandleMap
unfolding lower_top
detach_slot fd none m = (none, m)
detach_slot fd (some f) m = elim f.vfd [
  | none ↦ (none, m)
  | some vfd ↦
      let slots = set m.slots fd cleared in
      (
        some (f.handle, f.flags),
        record m {
          fd_top = if is_top vfd m.fd_top then lower_top slots vfd else m.fd_top;
          slots = slots;
        },
      )
]

-- `detach_fd_handle`
unfoldable pub detach_fd_handle : ℕ → HandleMap → Option (ℕ × ℕ) × HandleMap
unfolding detach_slot
detach_fd_handle fd m = if ltb fd m.fd_size then detach_slot fd (slot m fd) m else (none, m)

-- The loop that looks for a free descriptor; `n` numbers are left up to `fd_top`.
unfoldable pub find_free : List (Option FdHandle) → ℕ → ℕ → ℕ
find_free slots zero fd = fd
find_free slots (suc n) fd =
    let rest = find_free slots n (suc fd) in
    if handle_allocated (get_or slots fd none) then rest else fd

unfoldable pub first_free : ℕ → HandleMap → ℕ
unfolding find_free
first_free fd m = elim m.fd_top [ none ↦ fd | some top ↦ find_free m.slots (suc top - fd) fd ]

-- The loop that doubles the size, with fuel; `fd + 1` rounds are enough.
unfoldable pub double_size : ℕ → ℕ → ℕ → ℕ
double_size zero size fd = size
double_size (suc fuel) size fd =
    let rest = double_size fuel (2 * size) fd in if leb size fd then rest else size

-- `__enlarge_handle_map`, where `calloc` succeeds; the size is kept in 16 bits.
unfoldable pub enlarge_handle_map : ℕ → HandleMap → HandleMap
enlarge_handle_map size m = if leb size m.fd_size then m else record m {
  fd_size = size % 2 ^ 16;
  slots = take m.fd_size m.slots ++ replicate (size - m.fd_size) none;
}

-- What a call answers: a descriptor, an error, or a failed assertion.
pub data SetReply : Type 0 where
  placed : ℕ → SetReply
  refused : Errno → SetReply
  aborts : SetReply

-- `__init_handle`: an element that has been used before is used again.
unfoldable pub init_handle : Bool → ℕ → ℕ → ℕ → HandleMap → Option HandleMap
init_handle malloc fd hdl flags m =
    let filled = record m {
      slots = set m.slots fd (some (record { vfd = some fd; flags = flags; handle = hdl }));
    } in
    elim (slot m fd) [ some f ↦ some filled | none ↦ if malloc then some filled else none ]

abbrev pub raise_top : ℕ → Option ℕ → Option ℕ
raise_top fd none = some fd
raise_top fd (some top) = if ltb top fd then some fd else some top

-- `INIT_HANDLE_MAP_SIZE` and the size to which the array grows.
abbrev pub init_handle_map_size : ℕ
init_handle_map_size = 32

unfoldable pub new_size : ℕ → HandleMap → ℕ
unfolding double_size
new_size fd m = double_size (suc fd) (if m.fd_size == 0 then init_handle_map_size else m.fd_size) fd

-- From the enlarged array on.
unfoldable pub place_handle : Bool → ℕ → ℕ → ℕ → HandleMap → Counts → SetReply × HandleMap × Counts
unfolding init_handle
place_handle malloc fd hdl flags m counts =
    if not (ltb fd m.fd_size)
    then (aborts, m, counts)
    else elim (init_handle malloc fd hdl flags m) [
      | none ↦ (refused enomem, m, counts)
      | some m' ↦ (placed fd, record m' { fd_top = raise_top fd m.fd_top }, get_handle hdl counts)
    ]

-- The two allocations that a call may ask for.
pub record Memory : Type 0 where
  pub calloc : Bool
  pub malloc : Bool

unfoldable pub place_fd :
    ℕ → Memory → ℕ → ℕ → ℕ → HandleMap → Counts → SetReply × HandleMap × Counts
unfolding place_handle enlarge_handle_map new_size
place_fd limit mem fd hdl flags m counts =
    if leb limit fd
    then (refused emfile, m, counts)
    else if ltb fd m.fd_size
    then place_handle mem.malloc fd hdl flags m counts
    else if mem.calloc
    then place_handle mem.malloc fd hdl flags (enlarge_handle_map (new_size fd m) m) counts
    else (refused enomem, m, counts)

-- `set_new_fd_handle_above_fd`, `set_new_fd_handle` and `set_new_fd_handle_by_fd`: the three ways to
-- call `__set_new_fd_handle`; `limit` is the current limit on descriptors.
unfoldable pub set_new_fd_handle_above_fd :
    ℕ → Memory → ℕ → ℕ → ℕ → HandleMap → Counts → SetReply × HandleMap × Counts
unfolding place_fd first_free
set_new_fd_handle_above_fd limit mem fd hdl flags m counts =
    place_fd limit mem (first_free fd m) hdl flags m counts

unfoldable pub set_new_fd_handle :
    ℕ → Memory → ℕ → ℕ → HandleMap → Counts → SetReply × HandleMap × Counts
unfolding set_new_fd_handle_above_fd
set_new_fd_handle limit mem hdl flags m counts =
    set_new_fd_handle_above_fd limit mem 0 hdl flags m counts

unfoldable pub set_new_fd_handle_by_fd :
    ℕ → Memory → ℕ → ℕ → ℕ → HandleMap → Counts → SetReply × HandleMap × Counts
unfolding place_fd
set_new_fd_handle_by_fd limit mem fd hdl flags m counts =
    if under_top fd m.fd_top && handle_allocated (slot m fd)
    then (refused ebadf, m, counts)
    else place_fd limit mem fd hdl flags m counts
