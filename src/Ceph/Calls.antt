-- ===== src/Ceph/Calls.antt =====
-- The macros of src/shared/ceph/lowlevel.rs: a call whose negative return code is an error, and
-- texts as C strings.
use cluster_controller.Prelude.{ℕ, String, nat_eq, if◌then◌else◌, any, codes}
use cluster_controller.Errors.{Outcome, ok, err, panic, Error, ℤ, pos, negsuc}
use cluster_controller.World.{Event, M, ◌>>=◌, ◌>>◌, lift, observe, pure, CephCall}

-- `call!`: the code is below zero
abbrev pub check : String → ℤ → Outcome (Unit {0})
check operation (pos n) = ok tt
check operation (negsuc n) = err (Error.rados (record { operation = operation; code = negsuc n }))

-- A call with the number or handle that it writes back.
unfoldable pub call : String → CephCall → M ℕ
call operation c =
    observe (Event.ceph c) (λ env h. (env.storage.code h, env.storage.handle h))
    >>= λ (code, handle). lift (check operation code) >> pure handle

-- A call that returns nothing.
unfoldable pub call_void : CephCall → M (Unit {0})
call_void c = observe (Event.ceph c) (λ env h. tt)

-- `CString::new(_).expect(_)`: a text with a NUL is a panic.
unfoldable pub c_string : String → Outcome String
c_string text = if any (λ c. nat_eq c 0) (codes text) then panic else ok text
