-- ===== src/Application/I18n.antt =====
-- src/mp_commons/application/i18n/translator.py. A text is the list of its code points.
pub mod Text
pub mod Locale
pub mod Negotiation
pub mod Catalogues
mod Tests
