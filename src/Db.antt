-- ===== src/Db.antt =====
-- The key-value store of src/simple_db.rs. Its `io::Result`s are always `Ok`, so they are left out.
use the_block.Prelude.{Option, Text, Bytes, [], text_dec}
use the_block.Prelude.Map
use the_block.Prelude.Map.{HashMap}

pub record SimpleDb : Type 0 where
  pub map : HashMap Text Bytes

-- The path is not read: a store is empty when it is opened.
unfoldable pub open_db : Text → SimpleDb
open_db path = record { map = [] }

unfoldable pub get : SimpleDb → Text → Option Bytes
get db key = Map.get text_dec key db.map

-- Beside the new store: the value that was there before.
unfoldable pub insert : SimpleDb → Text → Bytes → SimpleDb × Option Bytes
insert db key value =
    (record { map = Map.insert text_dec key value db.map }, Map.get text_dec key db.map)

unfoldable pub remove : SimpleDb → Text → SimpleDb × Option Bytes
remove db key = (record { map = Map.remove text_dec key db.map }, Map.get text_dec key db.map)

unfoldable pub flush : SimpleDb → SimpleDb
flush db = db
