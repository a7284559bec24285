-- ===== src/Json.antt =====
-- JSON values, for the `dict[str, Any]` fields of actions and events, and Python's `==` on them.
-- Numbers are the integers; `negnum n` is -(n + 1).
use weatherflow.Prelude.{
  ℕ, String, ◌≡◌, arith, eq_iff, Bool, true, false, not, ◌&&◌, Option, none, some, ◌==◌, ◌=?◌,
  if◌then◌else◌,
}

mutual
  pub data Json : Type 0 where
    null : Json
    boolean : Bool → Json
    num : ℕ → Json
    negnum : ℕ → Json
    text : String → Json
    arr : Items → Json
    obj : Object → Json

  pub data Items : Type 0 where
    nil : Items
    cons : Json → Items → Items

  -- A dict, in the order of its keys.
  pub data Object : Type 0 where
    end : Object
    field : String → Json → Object → Object

-- d.get(k)
unfoldable pub get : String → Object → Option Json
get k end = none
get k (field j v d) = if j == k then some v else get k d

-- What d.pop(k, None) leaves; a dict has a key once.
unfoldable pub pop : String → Object → Object
pop k end = end
pop k (field j v d) = let rest = pop k d in if j == k then rest else field j v rest

-- What d[k] = v leaves.
unfoldable pub put : String → Json → Object → Object
put k v end = field k v end
put k v (field j w d) = if j == k then field j v d else field j w (put k v d)

-- len(d)
unfoldable pub size : Object → ℕ
size end = 0
size (field k v d) = Prim.Native.Nat.suc (size d)

-- True is equal to 1 and False to 0.
bool_num : Bool → ℕ → Bool
bool_num true n = n =? 1
bool_num false n = n =? 0

unfoldable mutual
  unfolding get size bool_num

  pub json_eq : Json → Json → Bool
  json_eq null null = true
  json_eq (boolean true) (boolean b) = b
  json_eq (boolean false) (boolean b) = not b
  json_eq (boolean b) (num n) = bool_num b n
  json_eq (num n) (boolean b) = bool_num b n
  json_eq (num n) (num m) = n =? m
  json_eq (negnum n) (negnum m) = n =? m
  json_eq (text s) (text t) = s == t
  json_eq (arr xs) (arr ys) = items_eq xs ys
  json_eq (obj d) (obj e) = (size d =? size e) && fields_in d e
  json_eq _ _ = false

  pub items_eq : Items → Items → Bool
  items_eq nil nil = true
  items_eq (cons x xs) (cons y ys) = json_eq x y && items_eq xs ys
  items_eq _ _ = false

  -- Every field of the first dict is in the second, with an equal value.
  pub fields_in : Object → Object → Bool
  fields_in end e = true
  fields_in (field k v d) e =
      elim (get k e) [ none ↦ false | some w ↦ json_eq v w ] && fields_in d e

-- d == e
unfoldable pub object_eq : Object → Object → Bool
unfolding json_eq fields_in
object_eq d e = (size d =? size e) && fields_in d e

pub get-pop : (j k : String) (d : Object) → get j (pop k d) ≡ (if j == k then none else get j d)
unfolding get pop
get-pop j k end = ground arith
get-pop j k (field i v d) = ground (arith, get-pop j k d, eq_iff i k, eq_iff j k, eq_iff i j)
