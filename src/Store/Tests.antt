-- ===== src/Store/Tests.antt =====
-- Reads and writes of the store at concrete contents.
use kip_db.Base.{◌≡◌, refl, none, some, false, [], ◌∷◌}
use kip_db.Base.Int.{pos, int_ord}
use kip_db.Base.Order.{bytes_ord}
use kip_db.Codec.Little.{little_varint}
use kip_db.Error.{KernelError, ok, err}
use kip_db.MemTable.{insert_data, find, find_}
use kip_db.MemTable.Tests.{two_keys, k1, k2}
use kip_db.Store.{Query, get, set, remove, append_cmd_data}
use kip_db.Store.Reads.{set-get, remove-remove}
use kip_db.Trigger.{item_process, is_exceeded}

-- A version without data.
abbrev no_tables : Query
no_tables key = ok (none, none)

set_done : (set little_varint two_keys (pos 4) false k2 (5 ∷ [])).2 ≡ ok tt
unfolding set append_cmd_data insert_data item_process is_exceeded
set_done = refl

set-get_example :
    get (set little_varint two_keys (pos 4) false k2 (5 ∷ [])).0 no_tables false k2
    ≡ ok (some (5 ∷ []))
set-get_example =
    (set-get little_varint two_keys (pos 4) false k2 (5 ∷ []) no_tables (refl, (refl, (refl, tt)))
        refl).0
      set_done

k1_removed : (remove little_varint two_keys no_tables (pos 4) false k1).2 ≡ ok tt
unfolding remove get find find_ append_cmd_data insert_data item_process is_exceeded
k1_removed = refl

remove-remove_example :
    let (inner', count', _) = remove little_varint two_keys no_tables (pos 4) false k1 in
    remove little_varint inner' no_tables count' false k1
    ≡ (inner', count', err KernelError.key_not_found)
remove-remove_example =
    remove-remove little_varint two_keys (pos 4) false k1 no_tables (refl, (refl, (refl, tt))) refl
      k1_removed
