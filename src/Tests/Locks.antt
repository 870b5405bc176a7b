-- ===== src/Tests/Locks.antt =====
-- A client takes a lock that nobody has taken before.
use text.Mathlib.TextEquality.{eq_iff}
use distributed_systems_mit.Base.{arith, ◌≡◌, ◌⊎◌, inl, refl, some, [], ◌∷◌}
use distributed_systems_mit.Kv.Rpc.{PutArgs}
use distributed_systems_mit.Kv.Server.{make_kv_server, write, get, put, puts}
use distributed_systems_mit.Kv.Clerk.{clerk_get, clerk_put, get_verdict, put_verdict, call_put}
use distributed_systems_mit.Kv.Lock.{
  Lock, World, ck_get, ck_put, after_put, after_get, acquire_round, acquire,
}
use distributed_systems_mit.Kv.Lock.Entries.{holds, IsNamed}
use distributed_systems_mit.Kv.Lock.Holding.{quiet, Held, acquire-Held, acquire_free}

abbrev new_lock : Lock
new_lock = record { client_id = "me"; lock_name = "l"; lock_version = 0 }

abbrev held_lock : Lock
held_lock = record new_lock { lock_version = 1 }

abbrev held_world : World
held_world = record {
  server = write make_kv_server "l" (record { value = "me"; version = 1 });
  calls = [];
}

lock_taken : acquire 1 new_lock (quiet make_kv_server []) ≡ some (held_world, held_lock)
unfolding acquire acquire_round after_get ck_get ck_put after_put clerk_get clerk_put get_verdict
    put_verdict get put call_put puts write make_kv_server
lock_taken = refl

-- Another client, that takes the lock for free.
abbrev rival : PutArgs
rival = record { key = "l"; value = "you"; version = 0 }

acquire-Held_example :
    Held held_world new_lock held_lock
    × (((puts held_world.server (rival ∷ [])).kv "l" ≡ holds "me" 1) ⊎ IsNamed "l" 1 (rival ∷ []))
acquire-Held_example =
    acquire-Held 1 new_lock held_lock (quiet make_kv_server []) held_world (rival ∷ [])
      (λ h. ground (arith, eq_iff "me" "")) lock_taken

acquire_free_example :
    (w : World) × (lk : Lock) × (acquire 1 new_lock (quiet make_kv_server []) ≡ some (w, lk))
    × Held w new_lock lk
unfolding make_kv_server
acquire_free_example =
    acquire_free 0 new_lock make_kv_server [] (λ h. ground (arith, eq_iff "me" ""))
      (λ h. ground (arith, eq_iff "me" "0")) (inl refl)
