-- ===== src/Manager/Register.antt =====
-- The commands that register a receiver or a node: register_to_manager of SCMultipath/register_dep.c
-- and registerDep of SCNodeCode/register_dep.c. `none` is the NULL of a missing interface, or a
-- write past an array.
use premium.Base.{
  ℕ, List, [], ◌∷◌, ◌++◌, Option, none, some, ltb, lt→ltb, ◌≡◌, ◌<◌, refl, ◌==◌, if◌then◌else◌,
  ◌>>=◌, length,
}
use premium.Text.{Bytes, codes, strcat_all}
use premium.Text.Decimal.{decimal}
use premium.Wire.{buffer_length}

-- The loop that lists the interfaces with commas between them.
unfoldable pub interface_list : List Bytes → Bytes
interface_list [] = []
interface_list (a ∷ []) = a
interface_list (a ∷ b ∷ rest) = a ++ (codes "," ++ interface_list (b ∷ rest))

abbrev pub first_interface : List Bytes → Option Bytes
first_interface [] = none
first_interface (a ∷ rest) = some a

-- Both loops and the strcat around them fill one buffer of LENGTH bytes, and num_int has 5.
abbrev pub within : ℕ → Bytes → Option Bytes
within size text = if ltb (length text) size then some text else none

pub within_fits : (size : ℕ) (text : Bytes) → length text < size → within size text ≡ some text
within_fits size text h = rw (lt→ltb _ size h) refl

-- Type 1 is a device, any other a node. The interfaces end at the first NULL of the array.
unfoldable pub register_to_manager : ℕ → List Bytes → ℕ → Option Bytes
unfolding interface_list
register_to_manager num_interfaces interfaces type = do
  primary ← first_interface interfaces
  num_int ← within 5 (decimal num_interfaces)
  let entry =
      if type == 1
      then strcat_all (codes "device," ∷ primary ∷ codes "," ∷ num_int ∷ codes "\n" ∷ [])
      else strcat_all (codes "node," ∷ primary ∷ codes "\n" ∷ [])
  let listed = if type == 1 then strcat_all (interface_list interfaces ∷ codes "\n" ∷ []) else []
  let inp_list = if type == 1 then codes "inp " ++ listed else []
  let out_list = if type == 1 then codes "out " ++ listed else []
  within buffer_length
      (strcat_all (codes "inp " ∷ entry ∷ inp_list ∷ codes "out " ∷ entry ∷ out_list ∷ []))

unfoldable pub register_dep : Bytes → Bytes
register_dep primary_addr =
    strcat_all (codes "out " ∷ codes "node," ∷ primary_addr ∷ codes "\n" ∷ [])
