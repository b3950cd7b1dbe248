-- ===== src/Ceph/Lowlevel.antt =====
-- src/shared/ceph/lowlevel.rs and src/shared/ceph/mod.rs. A failing call leaves what was opened
-- before it open.
pub mod Names
use cluster_controller.Prelude.{
  ℕ, zero, suc, ◌+◌, ◌-◌, ◌*◌, ◌%◌, ◌^◌, ◌≤◌, ◌<◌, String, ◌≡◌, ◌≢◌, ◌⊎◌, inl, inr, refl, sym, ap,
  Bool, true, false, ◌&&◌, ◌||◌, not, Option, none, some, List, [], ◌∷◌, ◌++◌, map, arith, ltb, leb,
  nat_eq, ◌==◌, option_eq, if◌then◌else◌, is_some, get_or, and_then, map_option, length, get_elem?,
  head?, retain, find, any, filter_map, contains, lookup, insert, remove, format, join, split,
  has_substring, ends_with, to_decimal, Bool-cases, Option-cases, eq_iff, All, In, find-some,
  find-none, All-find-none, any-true, any-In, any-false, In-retain, retain-In, ◌↔◌, IsFree,
  split_free, split_at,
}
use cluster_controller.Errors.{
  Outcome, ok, err, panic, Error, ok_or, or_default, expect, assert, is_ok, collect, ovn_not_found,
  ovn_conflict, ovn_deserialization_failed, ℤ, pos, negsuc, RadosError,
}
use cluster_controller.Errors
use cluster_controller.Json.{
  Value, null, bool, num, real, str, arr, obj, array, object, as_array, as_object, as_str, is_null,
  is_text, is_number, to_list, to_map, of_list, of_map, to_list-of_list, to_map-of_map,
}
use cluster_controller.World.{
  Ovn, Params, by_position, by_name, Message, request, response, Event, Env, World, M, ◌>>=◌, ◌>>◌,
  lift, observe, ask, pure, fail, try, read, happen, for_each, CephCall,
}
use cluster_controller.Ceph.Calls.{check, call, call_void, c_string}

unfoldable pub connect : M ℕ
connect = call "rados_create" (CephCall.create "admin") >>= λ cluster.
    call "rados_conf_read_file" (CephCall.conf_read_file cluster "/etc/ceph/ceph.conf")
    >> call "rados_conf_set"
        (CephCall.conf_set cluster "keyring" "/etc/ceph/ceph.client.admin.keyring")
    >> call "rados_conect" (CephCall.connect cluster)
    >> pure cluster

unfoldable pub disconnect : ℕ → M (Unit {0})
disconnect cluster = call_void (CephCall.shutdown cluster)

-- `split(|c| *c == 0)`: the item at hand, backwards, and what is left of the bytes.
abbrev pub split_bytes : List ℕ → List ℕ → List (List ℕ)
split_bytes item [] = item ∷ []
split_bytes item (zero ∷ bytes) = item ∷ split_bytes [] bytes
split_bytes item (suc b ∷ bytes) = split_bytes (item ++ suc b ∷ []) bytes

-- The loop: it stops at the first empty item.
abbrev pub collect_names : (List ℕ → Option String) → List (List ℕ) → Outcome (List String)
collect_names from_utf8 [] = ok []
collect_names from_utf8 ([] ∷ items) = ok []
collect_names from_utf8 ((b ∷ item) ∷ items) =
    Errors.◌>>=◌ (expect (from_utf8 (b ∷ item)))
      λ name. Errors.◌>>=◌ (collect_names from_utf8 items) λ names. ok (name ∷ names)

unfoldable pub null_separated_to_vec : (List ℕ → Option String) → List ℕ → Outcome (List String)
null_separated_to_vec from_utf8 null_separated_list =
    collect_names from_utf8 (split_bytes [] null_separated_list)

-- A call that fills a buffer with names.
abbrev pub call_names : String → CephCall → M (List String)
call_names operation c =
    observe (Event.ceph c)
      (λ env h. (env.storage.code h, env.storage.bytes h, env.libraries.from_utf8))
    >>= λ (code, buffer, from_utf8).
        lift (check operation code) >> lift (null_separated_to_vec from_utf8 buffer)

unfoldable pub get_pools : ℕ → M (List String)
unfolding null_separated_to_vec
get_pools cluster = call_names "rados_pool_list" (CephCall.pool_list cluster 1024)

unfoldable pub get_pool : ℕ → String → M ℕ
get_pool cluster pool_name = lift (c_string pool_name) >>= λ pool_name_c.
    call "rados_ioctx_create" (CephCall.ioctx_create cluster pool_name_c)

unfoldable pub close_pool : ℕ → M (Unit {0})
close_pool pool = call_void (CephCall.ioctx_destroy pool)

unfoldable pub get_images : ℕ → M (List String)
get_images pool = call_names "rbd_list" (CephCall.list pool 32768)

unfoldable pub create_image : ℕ → String → ℕ → M (Unit {0})
create_image pool name size = lift (c_string name) >>= λ name_c.
    call "rbd_create" (CephCall.create_image pool name_c size) >> pure tt

unfoldable pub get_features : ℕ → String → String → M ℕ
get_features pool name snapshot = lift (c_string name) >>= λ name_c.
    lift (c_string snapshot) >>= λ snapshot_c.
    call "rbd_open" (CephCall.open_image pool name_c snapshot_c) >>= λ image.
    call "rbd_get_features" (CephCall.get_features image) >>= λ features.
    call "rbd_close" (CephCall.close_image image) >> pure features

unfoldable pub clone_image : ℕ → String → ℕ → ℕ → String → M (Unit {0})
clone_image pool name size template_pool template_name = lift (c_string name) >>= λ name_c.
    lift (c_string template_name) >>= λ template_name_c.
    get_features template_pool template_name "default" >>= λ features.
    call "rbd_clone" (CephCall.clone template_pool template_name_c "default" pool name_c features)
    >> pure tt

unfoldable pub remove_image : ℕ → String → M (Unit {0})
remove_image pool name =
    lift (c_string name) >>= λ name_c. call "rbd_delete" (CephCall.remove pool name_c) >> pure tt

-- The key in the output buffer of `auth get-key`, if it holds any bytes.
abbrev pub read_key : (List ℕ → Option String) → List ℕ → Outcome String
read_key from_utf8 [] = err (Error.rados (record { operation = "auth get-key"; code = pos 1 }))
read_key from_utf8 (b ∷ bytes) = expect (from_utf8 (b ∷ bytes))

unfoldable pub auth_get_key : ℕ → String → M String
auth_get_key cluster key_name =
    observe
      (Event.ceph (
        CephCall.mon_command cluster
          (object (("prefix", str "auth get-key") ∷ ("entity", str key_name) ∷ []))))
      (λ env h. (env.storage.code h, env.storage.bytes h, env.libraries.from_utf8))
    >>= λ (code, outbuf, from_utf8).
        lift (check "rados_mon_command (auth get-key)" code) >> lift (read_key from_utf8 outbuf)

unfoldable pub open_image : ℕ → String → M ℕ
open_image pool image_name = lift (c_string image_name) >>= λ image_name_c.
    call "rbd_open_read_only" (CephCall.open_read_only pool image_name_c)

-- The `match code` of `has_locks`, with the lengths that the call wrote back; -34 is -ERANGE.
unfoldable pub locks : ℤ → ℕ × ℕ × ℕ → Outcome Bool
locks (pos zero) lengths = ok false
locks (pos (suc n)) lengths =
    err (Error.rados (record { operation = "rbd_list_lockers"; code = pos (suc n) }))
locks (negsuc n) (clients_len, cookies_len, addrs_len) =
    if nat_eq n 33
    then ok (ltb 0 clients_len || ltb 0 cookies_len || ltb 0 addrs_len)
    else err (Error.rados (record { operation = "rbd_list_lockers"; code = negsuc n }))

unfoldable pub has_locks : ℕ → String → M Bool
has_locks pool image_name = open_image pool image_name >>= λ image.
    observe (Event.ceph (CephCall.list_lockers image))
      (λ env h. (env.storage.code h, env.storage.lockers h))
    >>= λ (code, lengths). lift (locks code lengths)

-- `ceph::has_locks` of src/shared/ceph/mod.rs
unfoldable pub pool_has_locks : String → String → M Bool
pool_has_locks pool_name image_name =
    connect >>= λ cluster. get_pool cluster pool_name >>= λ pool. has_locks pool image_name
