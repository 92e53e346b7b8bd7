-- ===== src/Tests/ClientTests.antt =====
-- A pool of one connection.
use foxhttp.Prelude.{Bool, true, codes}
use foxhttp.Client.Pool.{Connection, Pool, new_pool, make_key, queue_of, acquire}
use foxhttp.Client.Pool.Laws.{Taken, acquire-Taken}

abbrev conn : Connection
conn = record { id = 1; in_use = true; last_activity = 10 }

abbrev open_always : Connection → Bool
open_always c = true

abbrev pool : Pool
pool = new_pool 4 30

acquire-Taken_example :
    Taken open_always 20
      (queue_of (make_key (codes "h") 80) pool)
      (acquire open_always 20 pool (codes "h") 80).1
      (queue_of (make_key (codes "h") 80) (acquire open_always 20 pool (codes "h") 80).0)
acquire-Taken_example = acquire-Taken open_always 20 pool (codes "h") 80
