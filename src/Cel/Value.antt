-- ===== src/Cel/Value.antt =====
-- `CelType`, `CelKey`, `CelValue` and the errors (cel_type.rs, value.rs, error.rs). An `f64` is its
-- bit pattern and an `i64` an integer; what a map or a list holds is a list of its own.
use cala.Prelude.{ℕ, String, Bool, List}
use cala.Prelude.Int.{ℤ}
use cala.Types.{NaiveDate, DateTime}

pub data CelType : Type 0 where
  map list int uint double string bytes bool null date timestamp uuid decimal : CelType

pub data CelKey : Type 0 where
  int : ℤ → CelKey
  uint : ℕ → CelKey
  bool : Bool → CelKey
  string : String → CelKey

mutual
  pub data CelValue (A : Type 0) : Type 0 where
    map : CelFields A → CelValue A
    list : CelItems A → CelValue A
    int : ℤ → CelValue A
    uint : ℕ → CelValue A
    double : ℕ → CelValue A
    string : String → CelValue A
    bytes : List ℕ → CelValue A
    bool : Bool → CelValue A
    null : CelValue A
    decimal : A → CelValue A
    date : NaiveDate → CelValue A
    timestamp : DateTime → CelValue A
    uuid : ℕ → CelValue A

  pub data CelItems (A : Type 0) : Type 0 where
    nil : CelItems A
    cons : CelValue A → CelItems A → CelItems A

  pub data CelFields (A : Type 0) : Type 0 where
    end : CelFields A
    field : CelKey → CelValue A → CelFields A → CelFields A

-- The errors that the modelled code makes: the three of `ResultCoercionError`, and
-- `CelError::EvaluationError` with the text of its cause. An error holds the expression, value and
-- types that its text quotes; the reason that an external parser gives is left out.
pub data CelError : Type 0 where
  bad_core_type : String → CelType → CelType → CelError
  bad_external_type : String → CelType → String → CelError
  external_type : String → String → String → CelError
  evaluation : String → String → CelError

-- `From<&CelKey> for CelType`
unfoldable pub key_type : CelKey → CelType
key_type (CelKey.int i) = CelType.int
key_type (CelKey.uint u) = CelType.uint
key_type (CelKey.bool b) = CelType.bool
key_type (CelKey.string s) = CelType.string

-- `From<&CelValue> for CelType`
unfoldable pub cel_type : {A : Type 0} → CelValue A → CelType
cel_type (CelValue.map m) = CelType.map
cel_type (CelValue.list l) = CelType.list
cel_type (CelValue.int i) = CelType.int
cel_type (CelValue.uint u) = CelType.uint
cel_type (CelValue.double f) = CelType.double
cel_type (CelValue.string s) = CelType.string
cel_type (CelValue.bytes b) = CelType.bytes
cel_type (CelValue.bool b) = CelType.bool
cel_type CelValue.null = CelType.null
cel_type (CelValue.decimal a) = CelType.decimal
cel_type (CelValue.date t) = CelType.date
cel_type (CelValue.timestamp t) = CelType.timestamp
cel_type (CelValue.uuid i) = CelType.uuid
