-- ===== src/KvStore/Engine/View.antt =====
-- What a client reads after each write.
use system_design.Common.{◌≡◌, ◌&&◌, none, some, if◌then◌else◌, arith}
use system_design.Common.Bytes.{Bytes, beq}
use system_design.KvStore.Memtable.{mem_get-mem_set, mem_get-mem_del}
use system_design.KvStore.Wal.{Outcome, append}
use system_design.KvStore.Engine.{Engine, view, set, delete}

-- After Set, whatever the disk answers: if the call returned nil, a Get of the key gives the value
-- that was set, and a Get of another key gives what it gave before; if the call returned an error,
-- every Get gives what it gave before.
pub view-set :
    (o : Outcome) (key val j : Bytes) (e : Engine)
    → view (set o key val e).0 j ≡ (if (set o key val e).1 && beq key j then some val else view e j)
unfolding set view append
view-set o key val j e = ground (arith, mem_get-mem_set e.mem key j val)

-- After Delete, whatever the disk answers: if the call returned nil, a Get of the key finds
-- nothing, and a Get of another key gives what it gave before; if the call returned an error, every
-- Get gives what it gave before.
pub view-delete :
    (o : Outcome) (key j : Bytes) (e : Engine)
    → view (delete o key e).0 j ≡ (if (delete o key e).1 && beq key j then none else view e j)
unfolding delete view append
view-delete o key j e = ground (arith, mem_get-mem_del e.mem key j)
