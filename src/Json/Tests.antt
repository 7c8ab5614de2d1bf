-- ===== src/Json/Tests.antt =====
-- A run of the serialization.
use zadper.Common.{◌≡◌, refl, true}
use zadper.Json.{null, bool, num, arr, obj, cons, nil, field, end, canonical_json}

canonical_test :
    canonical_json
      (obj (field "b" (num 12) (field "a" (arr (cons (bool true) (cons null nil))) end)))
    ≡ "{\"a\":[true,null],\"b\":12}"
unfolding canonical_json
canonical_test = refl
