-- ===== src/Store/Memory/Found.antt =====
-- What both in-memory stores do with the answer of a lookup.
use devops_platform.Base.{String, Map, remove, Option, none, some, Result, ok, err, string_eq}
use devops_platform.Store.Port.{Value}

-- v, ok := db[key]; if !ok, the error
abbrev pub found : {A : Type 0} → (A → Value) → String → Option A → Result Value
found wrap e none = err e
found wrap e (some a) = ok (wrap a)

abbrev pub delete_found :
    {A : Type 0} → Map String A → String → String → Option A → Result (Map String A)
delete_found db k e none = err e
delete_found db k e (some a) = ok (remove k db)
