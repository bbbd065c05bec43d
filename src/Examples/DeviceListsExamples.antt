-- ===== src/Examples/DeviceListsExamples.antt =====
-- Device lists: a manager with one row, which evicts, and one with two rows, which appends to both.
use chitu.Base.{
  ℕ, zero, suc, ◌+◌, ◌≡◌, refl, ap, Bool, true, false, List, [], ◌∷◌, arith, length, nat_eq, raise,
  runtime_error,
}
use chitu.DeviceLists.{
  DeviceList, Manager, own, append_item, make_manager, push_list, remove_list, batch_append,
  to_tensor,
}
use chitu.DeviceLists.Rows.{IsManaged}
use chitu.DeviceLists.Push.{IsPushed, push_list-IsPushed}
use chitu.DeviceLists.Fresh.{make_manager-IsManaged}
use chitu.DeviceLists.Batch.{IsAppended, batch_append-IsAppended}

-- A new tensor that is full of 9.
abbrev nines : ℕ → List ℕ
nines zero = []
nines (suc n) = 9 ∷ nines n

length-nines : (n : ℕ) → length (nines n) ≡ n
length-nines zero = refl
length-nines (suc n) = ap suc (length-nines n)

abbrev two_lists : ℕ → DeviceList
two_lists zero = record { data_of = own (5 ∷ 6 ∷ []); len = 2; disable_reallocate = false }
two_lists (suc k) = record { data_of = own (7 ∷ []); len = 1; disable_reallocate = false }

abbrev fresh : ℕ → Manager
fresh rows = make_manager nines two_lists rows 4

abbrev pushed : ℕ → Manager
pushed rows = (push_list 0 (fresh rows)).1

abbrev both_pushed : ℕ → Manager
both_pushed rows = (push_list 1 (pushed rows)).1

pushed_one-IsManaged : IsManaged (pushed 1)
unfolding push_list chitu.DeviceLists.refresh chitu.DeviceLists.assign_buffer_row make_manager
    chitu.Base.get chitu.Base.put chitu.DeviceLists.evict_list
pushed_one-IsManaged =
    (push_list-IsPushed 0 (fresh 1) (make_manager-IsManaged nines length-nines two_lists 1 4)
      (omega arith) (omega arith) (omega arith)).0

-- The row goes from list 0 to list 1, and list 0 keeps its items.
evicts :
    (to_tensor (both_pushed 1) 0 ≡ 5 ∷ 6 ∷ [])
    × (to_tensor (both_pushed 1) 1 ≡ 7 ∷ [])
    × ((both_pushed 1).lru_queue ≡ (1, 1) ∷ [])
unfolding push_list chitu.DeviceLists.refresh chitu.DeviceLists.assign_buffer_row make_manager
    chitu.Base.get to_tensor chitu.DeviceLists.evict_list chitu.Base.put chitu.Base.remove
evicts = (refl, refl, refl)

push_list-IsPushed_example : IsPushed 1 (pushed 1) (push_list 1 (pushed 1))
unfolding push_list chitu.DeviceLists.refresh chitu.DeviceLists.assign_buffer_row make_manager
    chitu.Base.get chitu.Base.put chitu.DeviceLists.evict_list
push_list-IsPushed_example =
    push_list-IsPushed 1 (pushed 1) pushed_one-IsManaged (omega arith) (omega arith) (omega arith)

both_pushed-IsManaged : IsManaged (both_pushed 2)
unfolding push_list chitu.DeviceLists.refresh chitu.DeviceLists.assign_buffer_row make_manager
    chitu.Base.get chitu.Base.put chitu.Base.remove
both_pushed-IsManaged =
    let first =
      push_list-IsPushed 0 (fresh 2) (make_manager-IsManaged nines length-nines two_lists 2 4)
        (omega arith) (omega arith) (omega arith) in
    (push_list-IsPushed 1 (pushed 2) first.0 (omega arith) (omega arith) (omega arith)).0

appended : to_tensor (batch_append (1 ∷ 0 ∷ []) (8 ∷ 7 ∷ []) (both_pushed 2)).1 0 ≡ 5 ∷ 6 ∷ 7 ∷ []
unfolding push_list chitu.DeviceLists.refresh chitu.DeviceLists.assign_buffer_row make_manager
    chitu.Base.get chitu.Base.put chitu.Base.remove to_tensor batch_append
appended = refl

batch_append-IsAppended_example :
    IsAppended
      (1 ∷ 0 ∷ [])
      (8 ∷ 7 ∷ [])
      (both_pushed 2)
      (batch_append (1 ∷ 0 ∷ []) (8 ∷ 7 ∷ []) (both_pushed 2))
unfolding push_list chitu.DeviceLists.refresh chitu.DeviceLists.assign_buffer_row make_manager
    chitu.Base.get chitu.Base.put chitu.Base.remove
batch_append-IsAppended_example =
    batch_append-IsAppended (1 ∷ 0 ∷ []) (8 ∷ 7 ∷ []) (both_pushed 2) both_pushed-IsManaged
      (refl, (refl, tt)) ((refl, omega arith), ((refl, omega arith), tt)) refl

-- A row that is full cannot grow, a list of its own can.
append_full :
    ((append_item nines 1 3 (fresh 1)).1.lists 1).len ≡ 2
    × ((append_item nines 0 1 (append_item nines 0 1 (append_item nines 0 1 (pushed 1)).1).1).0
        ≡ raise runtime_error)
unfolding push_list chitu.DeviceLists.refresh chitu.DeviceLists.assign_buffer_row make_manager
    chitu.Base.get chitu.Base.put chitu.Base.remove append_item
append_full = (refl, refl)
