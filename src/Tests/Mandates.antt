-- ===== src/Tests/Mandates.antt =====
-- A mandate at concrete fields.
use jibit_ir_sdk.Prelude.{refl, true, none, some}
use jibit_ir_sdk.Services.DirectDebit.{without, incompatible_fields, workflow_ok}
use jibit_ir_sdk.Services.DirectDebit.Models.{
  month, one_tap, CreateMandateRequest, create_mandate_payload,
}
use jibit_ir_sdk.Services.DirectDebit.Rules.{MandateRules, create_mandate_payload-MandateRules}

abbrev mandate : CreateMandateRequest
mandate = record {
  creditor_mandate_reference = "mandate-0001";
  debtor_bank = "SAMAN";
  maximum_amount = 5000000;
  period = 1;
  unit = month;
  start_date = "2026-01-01";
  expire_date = "2026-12-31";
  mandate_reason = none;
  debtor_firstname = none;
  debtor_lastname = none;
  debtor_national_code = none;
  debtor_id_number = none;
  debtor_mobile_number = none;
  debtor_postal_code = none;
  debtor_birthdate = none;
  debtor_deposit_number = none;
  debtor_iban = none;
  otp_requirement_status = some "REQUIRED";
  otp_condition = none;
  frequency = some 3;
  retry = some true;
}

create_mandate_payload-MandateRules_example :
    MandateRules one_tap mandate
      (without (incompatible_fields one_tap) (create_mandate_payload mandate))
unfolding workflow_ok
create_mandate_payload-MandateRules_example =
    create_mandate_payload-MandateRules mandate one_tap refl
