-- ===== src/Handles/Tests.antt =====
-- Descriptor tables at small inputs.
use graphene.Base.{
  ℕ, zero, suc, ◌≤◌, ◌<◌, ◌≡◌, refl, sym, ap, ◌∙◌, subst, replicate, true, Option, none, some, [],
  ◌∷◌, inl, inr, arith, emfile,
}
use graphene.Handles.{
  FdHandle, HandleMap, Counts, placed, refused, aborts, handle_allocated, slot, under_top,
  get_fd_handle, detach_fd_handle, set_new_fd_handle, set_new_fd_handle_above_fd,
  set_new_fd_handle_by_fd, first_free,
}
use graphene.Handles.Table.{IsNamed, IsWell, get_or-replicate}
use graphene.Handles.Detach.{IsDetached, detach_fd_handle-IsDetached}
use graphene.Handles.Fill.{IsPlaced, plenty}
use graphene.Handles.Install.{
  IsLowest, set_new_fd_handle_above_fd-IsPlaced, set_new_fd_handle_above_fd-emfile,
}
use graphene.Handles.Wrap.{set_new_fd_handle_by_fd-aborts}
use graphene.Handles.Walk.{strays, close_cloexec_handle}
use graphene.Handles.Stray.{AllClosing, close_cloexec_handle-strays}
use graphene.Base.{bit}

abbrev used : ℕ → ℕ → Option FdHandle
used fd hdl = some (record { vfd = some fd; flags = 1; handle = hdl })

-- The numbers 0 and 2 are in use, 1 has been, and 3 is new.
abbrev table : HandleMap
table = record {
  fd_size = 4;
  fd_top = some 2;
  slots = used 0 100 ∷ some (record { vfd = none; flags = 0; handle = 0 }) ∷ used 2 101 ∷ none ∷ [];
}

abbrev no_counts : Counts
no_counts = λ h. 1

table-IsNamed : (fd : ℕ) → IsNamed fd (slot table fd)
table-IsNamed zero f e = inr (ground (arith, e))
table-IsNamed (suc zero) f e = inl (ground (arith, e))
table-IsNamed (suc (suc zero)) f e = inr (ground (arith, e))
table-IsNamed (suc (suc (suc zero))) f e = ground (arith, e)
table-IsNamed (suc (suc (suc (suc fd)))) f e = ground (arith, e)

table-under : (fd : ℕ) → handle_allocated (slot table fd) ≡ true → under_top fd (some 2) ≡ true
table-under zero e = refl
table-under (suc zero) e = ground (arith, e)
table-under (suc (suc zero)) e = refl
table-under (suc (suc (suc zero))) e = ground (arith, e)
table-under (suc (suc (suc (suc fd)))) e = ground (arith, e)

table_top : (top : ℕ) → 2 ≡ top → handle_allocated (slot table top) ≡ true
table_top top e = subst (λ i. handle_allocated (slot table i) ≡ true) e refl

table-IsWell : IsWell table
table-IsWell = record {
  sized = refl;
  named = table-IsNamed;
  under = table-under;
  tight = λ top e. table_top top (ground (arith, e));
}

-- The lowest free number is taken, and its element used again.
reused_run : (set_new_fd_handle 900 plenty 102 0 table no_counts).0 ≡ placed 1
unfolding set_new_fd_handle
reused_run = refl

-- A number behind the array makes it grow.
grown_run : (set_new_fd_handle_by_fd 900 plenty 9 102 0 table no_counts).1.fd_size ≡ 16
unfolding set_new_fd_handle_by_fd
grown_run = refl

-- When the highest descriptor goes, the next one in use is the highest.
lowered_run : (detach_fd_handle 2 table).1.fd_top ≡ some 0
unfolding detach_fd_handle
lowered_run = refl

found_run : (get_fd_handle 2 table no_counts).0 ≡ some (101, 1)
unfolding get_fd_handle
found_run = refl

detach_fd_handle-IsDetached_example : IsDetached 2 table (detach_fd_handle 2 table)
detach_fd_handle-IsDetached_example = detach_fd_handle-IsDetached 2 table table-IsWell

set_new_fd_handle_above_fd-IsPlaced_example :
    IsLowest 2 table (first_free 2 table)
    × IsPlaced
        (first_free 2 table)
        102
        0
        table
        no_counts
        (set_new_fd_handle_above_fd 900 plenty 2 102 0 table no_counts)
set_new_fd_handle_above_fd-IsPlaced_example =
    set_new_fd_handle_above_fd-IsPlaced 900 2 3 102 0 table no_counts table-IsWell (omega arith)
      (omega arith) (omega arith) refl

only_two : (k : ℕ) → 2 ≤ k → k < 3 → handle_allocated (slot table k) ≡ true
only_two k p q = table_top k (omega arith)

set_new_fd_handle_above_fd-emfile_example :
    set_new_fd_handle_above_fd 3 plenty 2 102 0 table no_counts ≡ (refused emfile, table, no_counts)
set_new_fd_handle_above_fd-emfile_example =
    set_new_fd_handle_above_fd-emfile 3 2 102 0 plenty table no_counts table-IsWell only_two

-- A new table, and a number that is too high for sixteen bits of size.
abbrev new_table : HandleMap
new_table = record { fd_size = 32; fd_top = none; slots = replicate 32 none }

new_table-slot : (fd : ℕ) → slot new_table fd ≡ none
new_table-slot fd = get_or-replicate 32 fd none

new_table-IsWell : IsWell new_table
new_table-IsWell = record {
  sized = refl;
  named = λ fd f e. ground (arith, sym (new_table-slot fd) ∙ e);
  under = λ fd e. ground (arith, ap handle_allocated (sym (new_table-slot fd)), e);
  tight = λ top e. ground (arith, e);
}

set_new_fd_handle_by_fd-aborts_example :
    ((set_new_fd_handle_by_fd 65536 plenty 40000 102 0 new_table no_counts).0 ≡ aborts)
    × ((set_new_fd_handle_by_fd 65536 plenty 40000 102 0 new_table no_counts).1.fd_size ≡ 0)
set_new_fd_handle_by_fd-aborts_example =
    set_new_fd_handle_by_fd-aborts 65536 11 40000 102 0 true new_table no_counts new_table-IsWell
      (omega arith) refl (omega arith) (omega arith) (omega arith) (omega arith) (omega arith)

-- Both descriptors are marked for execve.
table-AllClosing : AllClosing table
unfolding bit
table-AllClosing zero e = refl
table-AllClosing (suc zero) e = ground (arith, e)
table-AllClosing (suc (suc zero)) e = refl
table-AllClosing (suc (suc (suc zero))) e = ground (arith, e)
table-AllClosing (suc (suc (suc (suc fd)))) e = ground (arith, e)

close_cloexec_handle-strays_example : close_cloexec_handle table no_counts ≡ strays
close_cloexec_handle-strays_example =
    close_cloexec_handle-strays 2 table no_counts table-IsWell refl table-AllClosing (omega arith)
