-- ===== src/Routing/Value.antt =====
-- The values of a ticket's payload, as json.loads returns them, and the Python operations on them
-- that the routing uses. Of the numbers only the natural ones are modelled.
use code_fixer.Base.{
  ℕ, String, Bool, true, false, not, ◌&&◌, ◌==◌, text_eq, number_eq, if◌then◌else◌,
}

mutual
  pub data Value : Type 0 where
    null : Value
    boolean : Bool → Value
    number : ℕ → Value
    text : String → Value
    list : Values → Value
    object : Fields → Value

  pub data Values : Type 0 where
    no_values : Values
    value : Value → Values → Values

  pub data Fields : Type 0 where
    no_fields : Fields
    field : String → Value → Fields → Fields

abbrev pub is_null : Value → Bool
is_null null = true
is_null (boolean b) = false
is_null (number n) = false
is_null (text s) = false
is_null (list xs) = false
is_null (object fs) = false

-- dict.get(key), with None for a key that is absent
abbrev pub get : String → Fields → Value
get key no_fields = null
get key (field k v fs) = if k == key then v else get key fs

abbrev pub has_key : String → Fields → Bool
has_key key no_fields = false
has_key key (field k v fs) = if k == key then true else has_key key fs

-- Every key of the second object is a key of the first.
abbrev pub covers : Fields → Fields → Bool
covers fs no_fields = true
covers fs (field k v gs) = has_key k fs && covers fs gs

-- A truth value is the number 0 or 1 for `==`.
abbrev pub one_of : Bool → ℕ
one_of true = 1
one_of false = 0

-- `a == b` for the values of JSON.
unfoldable mutual
  pub equal : Value → Value → Bool
  equal null null = true
  equal null (boolean c) = false
  equal null (number m) = false
  equal null (text t) = false
  equal null (list ys) = false
  equal null (object gs) = false
  equal (boolean b) null = false
  equal (boolean b) (boolean c) = one_of b == one_of c
  equal (boolean b) (number m) = one_of b == m
  equal (boolean b) (text t) = false
  equal (boolean b) (list ys) = false
  equal (boolean b) (object gs) = false
  equal (number n) null = false
  equal (number n) (boolean c) = n == one_of c
  equal (number n) (number m) = n == m
  equal (number n) (text t) = false
  equal (number n) (list ys) = false
  equal (number n) (object gs) = false
  equal (text s) null = false
  equal (text s) (boolean c) = false
  equal (text s) (number m) = false
  equal (text s) (text t) = s == t
  equal (text s) (list ys) = false
  equal (text s) (object gs) = false
  equal (list xs) null = false
  equal (list xs) (boolean c) = false
  equal (list xs) (number m) = false
  equal (list xs) (text t) = false
  equal (list xs) (list ys) = equal_values xs ys
  equal (list xs) (object gs) = false
  equal (object fs) null = false
  equal (object fs) (boolean c) = false
  equal (object fs) (number m) = false
  equal (object fs) (text t) = false
  equal (object fs) (list ys) = false
  equal (object fs) (object gs) = equal_fields fs gs && covers fs gs

  pub equal_values : Values → Values → Bool
  equal_values no_values no_values = true
  equal_values no_values (value y ys) = false
  equal_values (value x xs) no_values = false
  equal_values (value x xs) (value y ys) = equal x y && equal_values xs ys

  -- Every field of the first object has an equal value in the second.
  pub equal_fields : Fields → Fields → Bool
  equal_fields no_fields gs = true
  equal_fields (field k v fs) gs = has_key k gs && equal v (get k gs) && equal_fields fs gs

-- value in list
unfoldable pub is_member : Value → Values → Bool
unfolding equal
is_member v no_values = false
is_member v (value x xs) = if equal v x then true else is_member v xs

-- bool(value)
abbrev pub is_true : Value → Bool
is_true null = false
is_true (boolean b) = b
is_true (number n) = not (n == 0)
is_true (text s) = not (s == "")
is_true (list no_values) = false
is_true (list (value x xs)) = true
is_true (object no_fields) = false
is_true (object (field k v fs)) = true
