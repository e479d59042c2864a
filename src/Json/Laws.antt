-- ===== src/Json/Laws.antt =====
-- Reading a dict after a key was set.
use parcus.Prelude.{◌≡◌, refl, some, ◌==◌, nat_eq, list_eq, list_beq_iff, if◌then◌else◌, arith}
use parcus.Text.{Text}
use parcus.Json.{Value, Fields, end, field, get, put}

pub get-put :
    (j k : Text) (v : Value) (fs : Fields)
    → get j (put k v fs) ≡ (if k == j then some v else get j fs)
unfolding get put
get-put j k v end = refl
get-put j k v (field i w fs) =
    ground (arith, list_beq_iff k j, list_beq_iff i k, list_beq_iff i j, get-put j k v fs)
