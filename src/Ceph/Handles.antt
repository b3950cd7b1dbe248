-- ===== src/Ceph/Handles.antt =====
-- The pools that the controllers of volumes and images open and close.
use cluster_controller.Prelude.{
  ℕ, ◌+◌, String, ◌≡◌, sym, ap, Bool, true, false, Option, none, some, List, [], ◌∷◌, arith, ◌==◌,
  if◌then◌else◌, is_some, find, any,
}
use cluster_controller.Errors.{Outcome, ok, ℤ}
use cluster_controller.World.{Event, Env, World, M, ◌>>=◌, ◌>>◌, lift, observe, pure, CephCall}
use cluster_controller.World.Monad.Inversion.{continue-eq-ok, lift-eq-ok}
use cluster_controller.Ceph.Calls.{check, call, call_void, c_string}
use cluster_controller.Ceph.Lowlevel.{
  call_names, connect, disconnect, get_pool, close_pool, get_images, create_image, get_features,
  clone_image, remove_image, null_separated_to_vec,
}
use cluster_controller.Ceph.Volumes.{make_image, ensure_exists, ensure_removed}

-- Weigh an event: `x` for opening a pool, `y` for closing one.
abbrev pub weigh : ℕ → ℕ → Event → ℕ
weigh x y (Event.ceph (CephCall.ioctx_create cluster name)) = x
weigh x y (Event.ceph (CephCall.ioctx_destroy pool)) = y
weigh x y _ = 0

abbrev pub count : ℕ → ℕ → List Event → ℕ
count x y [] = 0
count x y (e ∷ log) = weigh x y e + count x y log

-- How many pools a history has opened, and how many it has closed.
abbrev pub opened : World → ℕ
opened w = count 1 0 w.log

abbrev pub closed : World → ℕ
closed w = count 0 1 w.log

module _ (x y : ℕ) where
  -- A computation that returns has added so much to the count.
  abbrev Counts : {A : Type 0} → ℕ → M A → Type 0
  Counts {A} n m =
      (env : Env) (w : World) (a : A) (w' : World)
      → m env w ≡ (ok a, w')
      → count x y w'.log ≡ n + count x y w.log

  lift-Counts : {A : Type 0} (o : Outcome A) → Counts 0 (lift o)
  lift-Counts o env w a w' e =
      let same = ap (λ (u : World). count x y u.log) (sym (lift-eq-ok e).1) in omega (arith, same)

  observe-Counts :
      {A : Type 0} (e : Event) (answer : Env → List Event → A)
      → Counts (weigh x y e) (observe e answer)
  observe-Counts e answer env w a w' h = ap (λ (u : World). count x y u.log) (sym (lift-eq-ok h).1)

  then-Counts :
      {A B : Type 0} (m : M A) (k : A → M B) (n n' total : ℕ)
      → total ≡ n + n'
      → Counts n m
      → ((a : A) → Counts n' (k a))
      → Counts total (m >>= k)
  then-Counts m k n n' total sum h h' env w b w' e =
      let (a, v, p, q) = continue-eq-ok (m env w) k env e in
      let first = h env w a v p in
      let second = h' a env v b w' q in omega (arith, first, second, sum)

  call-Counts :
      (operation : String) (c : CephCall) → Counts (weigh x y (Event.ceph c)) (call operation c)
  unfolding call
  call-Counts operation c =
      let n = weigh x y (Event.ceph c) in
      then-Counts (observe (Event.ceph c) (λ env h. (env.storage.code h, env.storage.handle h)))
        (λ (r : ℤ × ℕ). lift (check operation r.0) >> pure r.1) n 0 n (omega arith)
        (observe-Counts (Event.ceph c) (λ env h. (env.storage.code h, env.storage.handle h)))
        (λ r.
          then-Counts (lift (check operation r.0)) (λ _. pure r.1) 0 0 0 (omega arith)
            (lift-Counts _) (λ t. lift-Counts _))

  call_names-Counts :
      (operation : String) (c : CephCall)
      → Counts (weigh x y (Event.ceph c)) (call_names operation c)
  call_names-Counts operation c =
      let n = weigh x y (Event.ceph c) in
      then-Counts
        (observe (Event.ceph c)
          (λ env h. (env.storage.code h, env.storage.bytes h, env.libraries.from_utf8)))
        (λ (r : ℤ × List ℕ × (List ℕ → Option String)).
          lift (check operation r.0) >> lift (null_separated_to_vec r.2 r.1))
        n 0 n (omega arith)
        (observe-Counts (Event.ceph c)
          (λ env h. (env.storage.code h, env.storage.bytes h, env.libraries.from_utf8)))
        (λ r.
          then-Counts (lift (check operation r.0)) (λ _. lift (null_separated_to_vec r.2 r.1)) 0 0 0
            (omega arith) (lift-Counts _) (λ t. lift-Counts _))

  -- Two parts that count nothing.
  quiet-Counts :
      {A B : Type 0} (m : M A) (k : A → M B)
      → Counts 0 m
      → ((a : A) → Counts 0 (k a))
      → Counts 0 (m >>= k)
  quiet-Counts m k h h' = then-Counts m k 0 0 0 (omega arith) h h'

  connect-Counts : Counts 0 connect
  unfolding connect
  connect-Counts =
      quiet-Counts _ _ (call-Counts "rados_create" (CephCall.create "admin")) λ cluster.
        quiet-Counts _ _
          (quiet-Counts _ _
            (quiet-Counts _ _
              (call-Counts "rados_conf_read_file"
                (CephCall.conf_read_file cluster "/etc/ceph/ceph.conf"))
              (λ t.
                call-Counts "rados_conf_set"
                  (CephCall.conf_set cluster "keyring" "/etc/ceph/ceph.client.admin.keyring")))
            (λ t. call-Counts "rados_conect" (CephCall.connect cluster)))
          (λ t. lift-Counts (ok cluster))

  get_pool-Counts : (cluster : ℕ) (name : String) → Counts x (get_pool cluster name)
  unfolding get_pool
  get_pool-Counts cluster name =
      then-Counts (lift (c_string name)) _ 0 x x (omega arith) (lift-Counts _)
        λ text. call-Counts "rados_ioctx_create" (CephCall.ioctx_create cluster text)

  create_image-Counts :
      (pool : ℕ) (name : String) (size : ℕ) → Counts 0 (create_image pool name size)
  unfolding create_image
  create_image-Counts pool name size = quiet-Counts (lift (c_string name)) _ (lift-Counts _) λ text.
      quiet-Counts _ _ (call-Counts "rbd_create" (CephCall.create_image pool text size))
        (λ t. lift-Counts (ok tt))

  remove_image-Counts : (pool : ℕ) (name : String) → Counts 0 (remove_image pool name)
  unfolding remove_image
  remove_image-Counts pool name = quiet-Counts (lift (c_string name)) _ (lift-Counts _) λ text.
      quiet-Counts _ _ (call-Counts "rbd_delete" (CephCall.remove pool text))
        (λ t. lift-Counts (ok tt))

  get_features-Counts :
      (pool : ℕ) (name snapshot : String) → Counts 0 (get_features pool name snapshot)
  unfolding get_features
  get_features-Counts pool name snapshot =
      quiet-Counts (lift (c_string name)) _ (lift-Counts _) λ text.
        quiet-Counts (lift (c_string snapshot)) _ (lift-Counts _) λ point.
          quiet-Counts _ _ (call-Counts "rbd_open" (CephCall.open_image pool text point)) λ image.
            quiet-Counts _ _ (call-Counts "rbd_get_features" (CephCall.get_features image))
              λ features.
                quiet-Counts _ _ (call-Counts "rbd_close" (CephCall.close_image image))
                  (λ t. lift-Counts (ok features))

  clone_image-Counts :
      (pool : ℕ) (name : String) (size template_pool : ℕ) (template : String)
      → Counts 0 (clone_image pool name size template_pool template)
  unfolding clone_image
  clone_image-Counts pool name size template_pool template =
      quiet-Counts (lift (c_string name)) _ (lift-Counts _) λ text.
        quiet-Counts (lift (c_string template)) _ (lift-Counts _) λ source.
          quiet-Counts _ _ (get_features-Counts template_pool template "default") λ features.
            quiet-Counts _ _
              (call-Counts "rbd_clone"
                (CephCall.clone template_pool source "default" pool text features))
              (λ t. lift-Counts (ok tt))

  make_image-Counts :
      (pool template_pool : ℕ) (name : String) (size : ℕ) (template : Option String)
      → Counts 0 (make_image pool template_pool name size template)
  make_image-Counts pool template_pool name size none = create_image-Counts pool name size
  make_image-Counts pool template_pool name size (some t) =
      clone_image-Counts pool name size template_pool t

  if_Counts :
      {A : Type 0} (b : Bool) (m m' : M A)
      → Counts 0 m
      → Counts 0 m'
      → Counts 0 (if b then m else m')
  if_Counts true m m' h h' = h
  if_Counts false m m' h h' = h'

  close-Counts : (pool : ℕ) → Counts y (close_pool pool)
  unfolding close_pool call_void
  close-Counts pool = observe-Counts (Event.ceph (CephCall.ioctx_destroy pool)) (λ env h. tt)

  disconnect-Counts : (cluster : ℕ) → Counts 0 (disconnect cluster)
  unfolding disconnect call_void
  disconnect-Counts cluster = observe-Counts (Event.ceph (CephCall.shutdown cluster)) (λ env h. tt)

  images-Counts : (pool : ℕ) → Counts 0 (get_images pool)
  unfolding get_images
  images-Counts pool = call_names-Counts "rbd_list" (CephCall.list pool 32768)

  ensure_exists-Counts :
      (name : String) (size : ℕ) (template : Option String)
      → Counts (x + x + y + y) (ensure_exists name size template)
  unfolding ensure_exists
  ensure_exists-Counts name size template =
      then-Counts connect _ 0 (x + x + y + y) _ (omega arith) connect-Counts λ cluster.
        then-Counts (get_pool cluster "volumes") _ x (x + y + y) _ (omega arith)
          (get_pool-Counts cluster "volumes")
          λ pool.
            then-Counts (get_pool cluster "templates") _ x (y + y) _ (omega arith)
              (get_pool-Counts cluster "templates")
              λ template_pool.
                then-Counts (get_images pool) _ 0 (y + y) _ (omega arith) (images-Counts pool)
                  λ images.
                    then-Counts _ _ (y + y) 0 _ (omega arith)
                      (then-Counts _ _ y y _ (omega arith)
                        (then-Counts _ _ 0 y y (omega arith)
                          (if_Counts (is_some (find (λ existing. existing == name) images))
                            (pure tt) _ (lift-Counts (ok tt))
                            (make_image-Counts pool template_pool name size template))
                          (λ t. close-Counts pool))
                        (λ t. close-Counts template_pool))
                      (λ t. disconnect-Counts cluster)

  ensure_removed-Counts : (name : String) → Counts x (ensure_removed name)
  unfolding ensure_removed
  ensure_removed-Counts name = then-Counts connect _ 0 x _ (omega arith) connect-Counts λ cluster.
      then-Counts (get_pool cluster "volumes") _ x 0 _ (omega arith)
        (get_pool-Counts cluster "volumes")
        λ pool. quiet-Counts (get_images pool) _ (images-Counts pool) λ images.
          if_Counts (any (λ existing. existing == name) images) _ (pure tt)
            (remove_image-Counts pool name) (lift-Counts (ok tt))

-- When a volume has been made sure to exist, two pools have been opened and two have been closed.
pub ensure_exists-balanced :
    (name : String) (size : ℕ) (template : Option String) (env : Env) (w : World) {w' : World}
    → ensure_exists name size template env w ≡ (ok tt, w')
    → (opened w' ≡ 2 + opened w) × (closed w' ≡ 2 + closed w)
ensure_exists-balanced name size template env w {w'} e =
    let more = ensure_exists-Counts 1 0 name size template env w tt w' e in
    let fewer = ensure_exists-Counts 0 1 name size template env w tt w' e in
    (omega (arith, more), omega (arith, fewer))

-- When a volume has been made sure to be gone, one pool has been opened and none has been closed.
pub ensure_removed-leaks :
    (name : String) (env : Env) (w : World) {w' : World}
    → ensure_removed name env w ≡ (ok tt, w')
    → (opened w' ≡ 1 + opened w) × (closed w' ≡ closed w)
ensure_removed-leaks name env w {w'} e =
    let more = ensure_removed-Counts 1 0 name env w tt w' e in
    let none_closed = ensure_removed-Counts 0 1 name env w tt w' e in
    (omega (arith, more), omega (arith, none_closed))
