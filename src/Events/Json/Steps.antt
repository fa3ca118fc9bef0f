-- ===== src/Events/Json/Steps.antt =====
-- One step of a reader of src/events/input.
use xorc_gateway.Base.{◌≡◌, refl, Option, none, some, arith}
use xorc_gateway.Events.Json.{◌>>=◌}

pub goes_on :
    {A B : Type 0} {o : Option A} (f : A → Option B) {a : A} {b : B}
    → o ≡ some a
    → f a ≡ some b
    → (o >>= f) ≡ some b
unfolding ◌>>=◌
goes_on {o = none} f e e' = ground arith
goes_on {o = some x} f e e' = ground arith

pub bound :
    {A B : Type 0} {o : Option A} {f : A → Option B} {b : B}
    → (o >>= f) ≡ some b
    → (a : A) × (o ≡ some a) × (f a ≡ some b)
unfolding ◌>>=◌
bound {o = none} e = ground arith
bound {o = some a} e = (a, refl, e)
