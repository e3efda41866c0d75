-- ===== src/Environment/Examples.antt =====
-- An environment with two connections, one of which is given back, and with the version of ODBC 2.
use amazon_timestream_odbc_d.Base.{to_signed, pos, ◌≡◌, refl, [], ◌∷◌}
use amazon_timestream_odbc_d.SqlTypes.{environment_attribute_to_internal, AttributeId}
use amazon_timestream_odbc_d.Environment.{
  new_environment, internal_create_connection, create_connection, deregister_connection,
  internal_set_attribute, set_attribute, Environment,
}
use amazon_timestream_odbc_d.Environment.States.{
  IsSound, Reachable-IsSound, Reachable, creates, deregisters, sets, initial, after_step,
}

abbrev two_connections : Environment
two_connections = create_connection 48 (create_connection 32 new_environment)

abbrev one_connection : Environment
one_connection = deregister_connection 32 two_connections

abbrev of_odbc2 : Environment
of_odbc2 = set_attribute AttributeId.sql_attr_odbc_version (pos 2) one_connection

of_odbc2-Reachable : Reachable of_odbc2
of_odbc2-Reachable =
    after_step
      (after_step
        (after_step (after_step initial (creates 32 new_environment))
          (creates 48 (create_connection 32 new_environment)))
        (deregisters 32 two_connections))
      (sets AttributeId.sql_attr_odbc_version (pos 2) one_connection)

of_odbc2_connections : of_odbc2.connections ≡ 48 ∷ []
unfolding set_attribute internal_set_attribute environment_attribute_to_internal to_signed
    deregister_connection create_connection internal_create_connection new_environment
of_odbc2_connections = refl

of_odbc2_version : of_odbc2.odbc_version ≡ pos 2
unfolding set_attribute internal_set_attribute environment_attribute_to_internal to_signed
of_odbc2_version = refl

Reachable-IsSound_example : IsSound of_odbc2
Reachable-IsSound_example = Reachable-IsSound of_odbc2 of_odbc2-Reachable
