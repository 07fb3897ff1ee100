-- ===== src/Encryption/Tests.antt =====
-- A text stored under one key and read under the next.
use django_boilerplate.Prelude.{some, [], ◌∷◌}
use django_boilerplate.Encryption.Keys.{toy}
use django_boilerplate.Encryption.RoundTrip.{IsReadBack, text_survives_rotation}

text_survives_rotation_example :
    IsReadBack toy "old" "new" ("older" ∷ []) [] ("older" ∷ []) 1 2 (some "secret")
text_survives_rotation_example =
    text_survives_rotation toy "old" "new" ("older" ∷ []) [] ("older" ∷ []) 1 2 (some "secret")
