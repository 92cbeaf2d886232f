-- ===== src/Timescale/Tests.antt =====
-- Instances of the theorems on src/tortoise_extended/timescale, over a connection that keeps the
-- statements it is sent.
use tortoise_extended.Common.{
  ◌≡◌, refl, true, false, not, ◌⊎◌, none, some, List, [], ◌∷◌, Text, codes, ok,
}
use tortoise_extended.Common.Int.{pos}
use tortoise_extended.Timescale.{Connection, tuple}
use tortoise_extended.Timescale.Hypertable.{split_schema_name}
use tortoise_extended.Timescale.Hypertable.Names.{NoDot, LastDot, split_schema_name_lem}
use tortoise_extended.Timescale.Injection.{HypertableSends, hypertable_methods-Sends}
use tortoise_extended.Timescale.Policies.{
  RetentionSends, CompressionSends, StatsSends, AggregateSends, RefreshSends, policy_methods-Sends,
}

abbrev recorder : Connection
recorder = record {
  Db = List Text;
  Exception = Text;
  Value = Text;
  Row = List Text;
  execute_query = λ sql db. (ok (tuple []), sql ∷ db);
  str = λ e. e;
  repr = λ t. t;
  is_dict = λ row. false;
  is_null = λ v. false;
  truth = λ v. true;
  float = λ v. ok v;
  none_value = [];
  is_filled = λ row. not false;
  get = λ row name. none;
  item = λ row i. ok [];
  dict = λ row. ok [];
}

-- A name with quotes of both kinds, which would end the statement if it were not quoted.
abbrev hostile : Text
hostile = codes "e'); DROP TABLE x; --\".y"

hypertable_methods-Sends_example :
    HypertableSends recorder hostile
      (codes "created_at")
      (codes "7 days")
      true
      false
      true
      (some (codes "2024-01-01"))
      none
      none
      (some (pos 4))
hypertable_methods-Sends_example =
    hypertable_methods-Sends recorder hostile (codes "created_at") (codes "7 days") true false true
      (some (codes "2024-01-01")) none none (some (pos 4))

policy_methods-Sends_example :
    RetentionSends recorder hostile (codes "90 days") true
    × CompressionSends recorder hostile (codes "90 days") true
    × StatsSends recorder hostile
    × AggregateSends recorder hostile (codes "1 week") (codes "1 day") (codes "1 hour") true
    × RefreshSends recorder hostile none (some (codes "2024-01-31"))
policy_methods-Sends_example =
    policy_methods-Sends recorder hostile (codes "90 days") hostile (codes "1 week") (codes "1 day")
      (codes "1 hour") true none (some (codes "2024-01-31"))

-- A dot within quotes does not cut.
split_test : split_schema_name (codes "\"a.b\".t") ≡ (some (codes "\"a.b\""), codes "t")
unfolding split_schema_name
split_test = refl

split_schema_name_lem_example :
    (NoDot false (codes "\"a.b\".t")
      × (split_schema_name (codes "\"a.b\".t") ≡ (none, codes "\"a.b\".t")))
    ⊎ ((schema : Text) × (table : Text) × LastDot false (codes "\"a.b\".t") schema table
        × (split_schema_name (codes "\"a.b\".t") ≡ (some schema, table)))
split_schema_name_lem_example = split_schema_name_lem (codes "\"a.b\".t")
