-- ===== src/Jail/Handle.antt =====
-- jail/jail.go: a handle of a jail and its methods, over the system calls of jail/syscall.go; and
-- Remove as the steps of goroutines that share a handle and its mutex.
pub mod Once
use runj.Prelude.{
  ℕ, String, Bool, true, false, not, ◌||◌, ◌≡◌, refl, Option, none, some, List, [], ◌∷◌, ◌++◌, zero,
  suc, Result, ok, err, ◌==ℕ◌, if◌then◌else◌,
}
use runj.Text.{bytes}
use runj.Jail.Iovec.{Iovec, make_iovec}
use runj.Jail.Find.{Query, host_jail, ask, FindError, find}

-- What a system call leaves: its first result as 32 bits, errno, and the buffer for a message.
pub record Answer : Type 0 where
  pub jid : ℕ
  pub errno : ℕ
  pub message : List ℕ

pub data CallError : Type 0 where
  errno : ℕ → CallError
  errmsg : List ℕ → CallError

pub record Kernel : Type 0 where
  pub jail_get : List Iovec → ℕ → Answer
  pub jail_set : List Iovec → ℕ → Answer
  pub jail_attach : ℕ → ℕ
  pub jail_remove : ℕ → ℕ

zeros : ℕ → List ℕ
zeros zero = []
zeros (suc n) = 0 ∷ zeros n

-- errorIovec: the name with its NUL, and the empty buffer
unfoldable pub error_iovec : List Iovec
unfolding zeros bytes
error_iovec = make_iovec (bytes "errmsg" ++ 0 ∷ []) (some (zeros 1024)) 1024

-- unix.ByteSliceToString
up_to_nul : List ℕ → List ℕ
up_to_nul [] = []
up_to_nul (b ∷ bs) = let rest = up_to_nul bs in if b ==ℕ 0 then [] else b ∷ rest

call_error : ℕ → List ℕ → CallError
unfolding up_to_nul
call_error e [] = errno e
call_error e (b ∷ bs) = if b ==ℕ 0 then errno e else errmsg (up_to_nul (b ∷ bs))

-- iovSyscall, with the system call as a function; -1 is the 32 bits 0xffffffff.
unfoldable pub iov_syscall : (List Iovec → ℕ → Answer) → List Iovec → ℕ → Result CallError ℕ
unfolding error_iovec call_error
iov_syscall call iovecs flags =
    let r = call (iovecs ++ error_iovec) flags in
    if (r.jid ==ℕ 0xffffffff) || not (r.errno ==ℕ 0)
    then err (call_error r.errno r.message)
    else ok r.jid

-- jidSyscall
unfoldable pub jid_syscall : (ℕ → ℕ) → ℕ → Option CallError
jid_syscall call jid = if call jid ==ℕ 0 then none else some (errno (call jid))

pub record Handle : Type 0 where
  pub id : ℕ
  pub removed : Bool

pub data HandleError : Type 0 where
  not_found : FindError → HandleError
  not_called : CallError → HandleError
  already_removed : HandleError

abbrev new_handle : Result CallError ℕ → Result HandleError Handle
new_handle (ok jid) = ok (record { id = jid; removed = false })
new_handle (err e) = err (not_called e)

module _ (k : Kernel) where
  -- set, with _FLAG_CREATE, as jail.Create calls it
  unfoldable pub set : List Iovec → Result HandleError Handle
  unfolding iov_syscall
  set iovecs = new_handle (iov_syscall k.jail_set iovecs 1)

  -- FromName; the host is found without a call.
  unfoldable pub from_name : String → Result HandleError Handle
  unfolding find iov_syscall
  from_name name = elim (find name) [
    | err e ↦ err (not_found e)
    | ok query ↦ elim query [
      | host_jail ↦ ok (record { id = 0; removed = false })
      | ask iovecs ↦ new_handle (iov_syscall k.jail_get iovecs 0)
    ]
  ]

  unfoldable pub attach : Handle → Option CallError
  unfolding jid_syscall
  attach j = jid_syscall k.jail_attach j.id

  -- Remove, while it holds the mutex
  unfoldable pub remove : Handle → Option HandleError × Handle
  unfolding jid_syscall
  remove j =
      if j.removed then (some already_removed, j) else elim (jid_syscall k.jail_remove j.id) [
        | some e ↦ (some (not_called e), j)
        | none ↦ (none, record j { removed = true })
      ]

-- Where a goroutine is that calls Remove.
pub data Caller : Type 0 where
  -- about to lock; about to read `removed`, to make the system call, and to store `removed`
  locking checking calling marking : Caller
  -- about to unlock, with and without an error; returned
  failing succeeding : Caller
  failed succeeded : Caller

pub record System : Type 0 where
  pub callers : List Caller
  pub locked : Bool
  pub removed : Bool

-- What one goroutine does: its place, the mutex and `removed`, before and after.
pub data Move : Caller → Bool → Bool → Caller → Bool → Bool → Type 0 where
  lock : (r : Bool) → Move locking false r checking true r
  refuse : (l : Bool) → Move checking l true failing l true
  go_on : (l : Bool) → Move checking l false calling l false
  -- jail_remove(2) fails, and destroys the jail
  not_removed : (l r : Bool) → Move calling l r failing l r
  destroy : (l r : Bool) → Move calling l r marking l r
  mark : (l r : Bool) → Move marking l r succeeding l true
  unlock_failing : (l r : Bool) → Move failing l r failed false r
  unlock_succeeding : (l r : Bool) → Move succeeding l r succeeded false r

-- One of the goroutines moves.
pub data Step : System → System → Type 0 where
  move :
      (before after : List Caller) {p p' : Caller} {l l' r r' : Bool}
      → Move p l r p' l' r'
      → Step
          (record { callers = before ++ p ∷ after; locked = l; removed = r })
          (record { callers = before ++ p' ∷ after; locked = l'; removed = r' })

-- Any number of goroutines, before the first of them locks.
abbrev pub all_locking : ℕ → List Caller
all_locking zero = []
all_locking (suc n) = locking ∷ all_locking n

pub data Reachable (n : ℕ) : System → Type 0 where
  start : Reachable n (record { callers = all_locking n; locked = false; removed = false })
  next : {s t : System} → Reachable n s → Step s t → Reachable n t
