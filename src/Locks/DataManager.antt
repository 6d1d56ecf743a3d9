-- ===== src/Locks/DataManager.antt =====
-- DataManager of synchronization_primitives/mutex/shared_mutex.cpp: threads that replace and copy a
-- vector under a std::mutex, one mutex operation or access to the vector a step.
pub mod Copies
mod Tests
use hse_multithreading_examp.Prelude.{
  ℕ, ◌<◌, ◌≡◌, Bool, true, false, List, [], ◌∷◌, ◌++◌, length, get_or,
}
use hse_multithreading_examp.Threads.{System}

-- `m_data`, and whether `m_mtx` is locked.
pub record Manager (A : Type 0) : Type 0 where
  pub m_data : List A
  pub locked : Bool

-- Where a thread stands in `ChangeData(newData)` or `GetCopy()`. The copy takes the size first and then
-- the elements one by one.
pub data Pc (A : Type 0) : Type 0 where
  idle : Pc A
  change_lock : (new_data : List A) → Pc A
  change_move : (new_data : List A) → Pc A
  change_unlock : Pc A
  copy_lock : Pc A
  copy_size : Pc A
  copy_element : (size : ℕ) (copied : List A) → Pc A
  copy_unlock : (result : List A) → Pc A
  returned : (result : List A) → Pc A

-- `Given d` says that some thread calls ChangeData with `d`. The threads of `main` call GetCopy only.
module _ {A : Type 0} (blank : A) (Given : List A → Type 0) where
  pub data Move (m : Manager A) : Pc A → Manager A → Pc A → Type 0 where
    call_change : {d : List A} → Given d → Move m idle m (change_lock d)
    lock_change :
        {d : List A}
        → m.locked ≡ false
        → Move m (change_lock d) (record m { locked = true }) (change_move d)
    move_data : {d : List A} → Move m (change_move d) (record m { m_data = d }) change_unlock
    unlock_change : Move m change_unlock (record m { locked = false }) idle
    call_copy : Move m idle m copy_lock
    lock_copy : m.locked ≡ false → Move m copy_lock (record m { locked = true }) copy_size
    take_size : Move m copy_size m (copy_element (length m.m_data) [])
    next_element :
        {size : ℕ} {copied : List A}
        → length copied < size
        → Move m
            (copy_element size copied)
            m
            (copy_element size (copied ++ (get_or m.m_data (length copied) blank ∷ [])))
    all_copied :
        {size : ℕ} {copied : List A}
        → length copied ≡ size
        → Move m (copy_element size copied) m (copy_unlock copied)
    unlock_copy :
        {copy : List A} → Move m (copy_unlock copy) (record m { locked = false }) (returned copy)
    return : {copy : List A} → Move m (returned copy) m idle

-- A manager that no thread uses yet; the source starts with no elements.
abbrev pub start : {A : Type 0} → List A → System (Manager A) (Pc A)
start content = record { mem = record { m_data = content; locked = false }; pc = λ _. idle }
